-- ===== src/Prelude/Rows/Sort.antt =====
-- `ORDER BY key`: rows in the order of a numeric key, ties in the order of insertion.
use Prim.Native.Nat.{ℕ, suc, ◌≤◌}
use mathlib.Core.Path.{◌≡◌, refl}
use mathlib.Core.Logic.{◌⊎◌, inl, inr}
use mathlib.Core.Bool.{Bool, ◌||◌}
use mathlib.Core.List.{List, [], ◌∷◌}
use native.Mathlib.Omega.{arith}
use crypto_pigeon.Prelude.Tests.{Bool-cases, leb, if◌then◌else◌}
use crypto_pigeon.Prelude.Rows.{any, All, Any, count}

module _ {ℓ} {A : Type ℓ} (key : A → ℕ) where
  abbrev pub insert_by : A → List A → List A
  insert_by x [] = x ∷ []
  insert_by x (y ∷ ys) = if leb (key x) (key y) then x ∷ y ∷ ys else y ∷ insert_by x ys

  abbrev pub sort_by : List A → List A
  sort_by [] = []
  sort_by (x ∷ xs) = insert_by x (sort_by xs)

  abbrev pub IsAtMost : ℕ → List A → Type 0
  IsAtMost n [] = Unit
  IsAtMost n (y ∷ ys) = (n ≤ key y) × IsAtMost n ys

  abbrev pub IsSortedBy : List A → Type 0
  IsSortedBy [] = Unit
  IsSortedBy (x ∷ xs) = IsAtMost (key x) xs × IsSortedBy xs

  IsAtMost-insert :
      (n : ℕ) (x : A) (ys : List A) → n ≤ key x → IsAtMost n ys → IsAtMost n (insert_by x ys)
  IsAtMost-insert n x [] h k = (h, tt)
  IsAtMost-insert n x (y ∷ ys) h k = ground (arith, IsAtMost-insert n x ys)

  IsAtMost-mono : (m n : ℕ) (ys : List A) → m ≤ n → IsAtMost n ys → IsAtMost m ys
  IsAtMost-mono m n [] h k = tt
  IsAtMost-mono m n (y ∷ ys) h k = ground (arith, IsAtMost-mono m n ys)

  insert-IsSortedBy : (x : A) (ys : List A) → IsSortedBy ys → IsSortedBy (insert_by x ys)
  insert-IsSortedBy x [] s = (tt, tt)
  insert-IsSortedBy x (y ∷ ys) s = ground (
    arith,
    insert-IsSortedBy x ys,
    IsAtMost-insert (key y) x ys,
    IsAtMost-mono (key x) (key y) ys,
  )

  pub sort_by-IsSortedBy : (xs : List A) → IsSortedBy (sort_by xs)
  sort_by-IsSortedBy [] = tt
  sort_by-IsSortedBy (x ∷ xs) = insert-IsSortedBy x (sort_by xs) (sort_by-IsSortedBy xs)

  any-insert_by : (p : A → Bool) (x : A) (ys : List A) → any p (insert_by x ys) ≡ (p x || any p ys)
  any-insert_by p x [] = refl
  any-insert_by p x (y ∷ ys) = ground (arith, any-insert_by p x ys)

  -- Sorting neither loses nor invents a row.
  pub any-sort_by : (p : A → Bool) (xs : List A) → any p (sort_by xs) ≡ any p xs
  any-sort_by p [] = refl
  any-sort_by p (x ∷ xs) = ground (arith, any-insert_by p x (sort_by xs), any-sort_by p xs)

  Any-insert_by : (P : A → Type 0) (x : A) (ys : List A) → P x ⊎ Any P ys → Any P (insert_by x ys)
  Any-insert_by P x [] h = h
  Any-insert_by P x (y ∷ ys) h = elim (Bool-cases (leb (key x) (key y))) [
    | inl t ↦ rw t h
    | inr f ↦ rw f (elim h [
      | inl a ↦ inr (Any-insert_by P x ys (inl a))
      | inr (inl b) ↦ inl b
      | inr (inr c) ↦ inr (Any-insert_by P x ys (inr c))
    ])
  ]

  pub Any-sort_by : (P : A → Type 0) (xs : List A) → Any P xs → Any P (sort_by xs)
  Any-sort_by P [] h = h
  Any-sort_by P (x ∷ xs) (inl h) = Any-insert_by P x (sort_by xs) (inl h)
  Any-sort_by P (x ∷ xs) (inr h) = Any-insert_by P x (sort_by xs) (inr (Any-sort_by P xs h))

  All-insert_by {κ} :
      (P : A → Type κ) (x : A) (ys : List A) → P x → All P ys → All P (insert_by x ys)
  All-insert_by P x [] h hs = (h, tt)
  All-insert_by P x (y ∷ ys) h (k, ks) = elim (Bool-cases (leb (key x) (key y))) [
    | inl t ↦ rw t (h, (k, ks))
    | inr f ↦ rw f (k, All-insert_by P x ys h ks)
  ]

  pub All-sort_by {κ} : (P : A → Type κ) (xs : List A) → All P xs → All P (sort_by xs)
  All-sort_by P [] h = tt
  All-sort_by P (x ∷ xs) (h, hs) = All-insert_by P x (sort_by xs) h (All-sort_by P xs hs)

  count-insert_by : (x : A) (ys : List A) → count (insert_by x ys) ≡ suc (count ys)
  count-insert_by x [] = refl
  count-insert_by x (y ∷ ys) = ground (arith, count-insert_by x ys)

  pub count-sort_by : (xs : List A) → count (sort_by xs) ≡ count xs
  count-sort_by [] = refl
  count-sort_by (x ∷ xs) = ground (arith, count-insert_by x (sort_by xs), count-sort_by xs)
