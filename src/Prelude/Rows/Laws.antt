-- ===== src/Prelude/Rows/Laws.antt =====
-- What the statements on a table do to the tests of later statements.
use mathlib.Core.Path.{◌≡◌, refl}
use mathlib.Core.Logic.{inl, inr}
use mathlib.Core.Bool.{Bool, true, false, not, ◌&&◌, ◌||◌}
use mathlib.Core.Option.{none, some}
use mathlib.Core.List.{List, [], ◌∷◌, ◌++◌, map}
use native.Mathlib.Omega.{arith}
use crypto_pigeon.Prelude.Tests.{Bool-cases, if◌then◌else◌, is_some}
use crypto_pigeon.Prelude.Rows.{find, any, select, delete, update, All, Any}

module _ {ℓ} {A : Type ℓ} where
  pub any-append : (p : A → Bool) (xs ys : List A) → any p (xs ++ ys) ≡ (any p xs || any p ys)
  any-append p [] ys = refl
  any-append p (x ∷ xs) ys = ground (arith, any-append p xs ys)

  pub any-append_left : (p : A → Bool) (xs ys : List A) → any p xs ≡ true → any p (xs ++ ys) ≡ true
  any-append_left p xs ys h = ground (arith, any-append p xs ys)

  pub any-update_mono :
      (p q : A → Bool) (f : A → A) (xs : List A)
      → ((x : A) → p x ≡ true → p (if q x then f x else x) ≡ true)
      → any p xs ≡ true
      → any p (update q f xs) ≡ true
  any-update_mono p q f [] keep h = h
  any-update_mono p q f (x ∷ xs) keep h = ground (arith, keep x, any-update_mono p q f xs keep)

  pub any-update_eq :
      (p q : A → Bool) (f : A → A) (xs : List A)
      → ((x : A) → p (if q x then f x else x) ≡ p x)
      → any p (update q f xs) ≡ any p xs
  any-update_eq p q f [] same = refl
  any-update_eq p q f (x ∷ xs) same = ground (arith, same x, any-update_eq p q f xs same)

  -- Where the updated rows pass `p`, an updated row is enough.
  pub any-update_hit :
      (p q : A → Bool) (f : A → A) (xs : List A)
      → ((x : A) → q x ≡ true → p (f x) ≡ true)
      → any q xs ≡ true
      → any p (update q f xs) ≡ true
  any-update_hit p q f [] hit h = h
  any-update_hit p q f (x ∷ xs) hit h = ground (arith, hit x, any-update_hit p q f xs hit)

  pub any-none : (p : A → Bool) (xs : List A) → ((x : A) → p x ≡ false) → any p xs ≡ false
  any-none p [] h = refl
  any-none p (x ∷ xs) h = ground (arith, h x, any-none p xs h)

  pub any_of_find : (p : A → Bool) (xs : List A) (x : A) → find p xs ≡ some x → any p xs ≡ true
  any_of_find p [] x h = ground arith
  any_of_find p (y ∷ xs) x h = ground (arith, any_of_find p xs x)

  pub any_of_found :
      (p q : A → Bool) (xs : List A) (x : A) → find p xs ≡ some x → q x ≡ true → any q xs ≡ true
  any_of_found p q [] x e h = ground arith
  any_of_found p q (y ∷ xs) x e h = ground (arith, any_of_found p q xs x)

  pub any-find : (p : A → Bool) (xs : List A) → any p xs ≡ is_some (find p xs)
  any-find p [] = refl
  any-find p (x ∷ xs) = ground (arith, any-find p xs)

  pub find-holds : (p : A → Bool) (xs : List A) (x : A) → find p xs ≡ some x → p x ≡ true
  find-holds p [] x h = ground arith
  find-holds p (y ∷ xs) x h = ground (arith, find-holds p xs x)

  -- The row that was found is updated with the others.
  pub find-update_hit :
      (p q r : A → Bool) (f : A → A) (xs : List A) (x : A)
      → find p xs ≡ some x
      → q x ≡ true
      → r (f x) ≡ true
      → any r (update q f xs) ≡ true
  find-update_hit p q r f [] x e h k = ground arith
  find-update_hit p q r f (y ∷ xs) x e h k = ground (arith, find-update_hit p q r f xs x)

  pub find-update-none :
      (p q : A → Bool) (f : A → A) (xs : List A)
      → ((x : A) → p (if q x then f x else x) ≡ false)
      → find p (update q f xs) ≡ none
  find-update-none p q f [] h = refl
  find-update-none p q f (x ∷ xs) h = ground (arith, h x, find-update-none p q f xs h)

  pub any-delete_none :
      (p q : A → Bool) (xs : List A)
      → ((x : A) → p x ≡ true → q x ≡ true)
      → any p (delete q xs) ≡ false
  any-delete_none p q [] h = refl
  any-delete_none p q (x ∷ xs) h = ground (arith, h x, any-delete_none p q xs h)

  -- A deletion that spares the rows of `p` leaves a selection by `p` as it was.
  pub select-delete :
      (p q : A → Bool) (xs : List A)
      → ((x : A) → p x ≡ true → q x ≡ false)
      → select p (delete q xs) ≡ select p xs
  select-delete p q [] h = refl
  select-delete p q (x ∷ xs) h = ground (arith, h x, select-delete p q xs h)

  pub find-delete :
      (p q : A → Bool) (xs : List A)
      → ((x : A) → p x ≡ true → q x ≡ false)
      → find p (delete q xs) ≡ find p xs
  find-delete p q [] h = refl
  find-delete p q (x ∷ xs) h = ground (arith, h x, find-delete p q xs h)

  pub All-delete {κ} :
      (P : A → Type κ) (q : A → Bool) (xs : List A) → All P xs → All P (delete q xs)
  All-delete P q [] h = h
  All-delete P q (x ∷ xs) h = ground (arith, All-delete P q xs)

  pub All-append {κ} : (P : A → Type κ) (xs ys : List A) → All P xs → All P ys → All P (xs ++ ys)
  All-append P [] ys h k = k
  All-append P (x ∷ xs) ys (h, hs) k = (h, All-append P xs ys hs k)

  pub All-update {κ} :
      (P : A → Type κ) (q : A → Bool) (f : A → A) (xs : List A)
      → ((x : A) → P x → q x ≡ true → P (f x))
      → All P xs
      → All P (update q f xs)
  All-update P q f [] keep h = h
  All-update P q f (x ∷ xs) keep h = ground (arith, keep x, All-update P q f xs keep)

  pub any-update_none :
      (p q : A → Bool) (f : A → A) (xs : List A)
      → ((x : A) → p (if q x then f x else x) ≡ false)
      → any p (update q f xs) ≡ false
  any-update_none p q f [] h = refl
  any-update_none p q f (x ∷ xs) h = ground (arith, h x, any-update_none p q f xs h)

  pub any-select : (p q : A → Bool) (xs : List A) → any p (select q xs) ≡ any (λ x. q x && p x) xs
  any-select p q [] = refl
  any-select p q (x ∷ xs) = ground (arith, any-select p q xs)

  pub any-delete :
      (p q : A → Bool) (xs : List A) → any p (delete q xs) ≡ any (λ x. not (q x) && p x) xs
  any-delete p q [] = refl
  any-delete p q (x ∷ xs) = ground (arith, any-delete p q xs)

  -- Deleting rows that `p` and `q` leave apart does not change what `p` finds.
  pub any-delete_other :
      (p q : A → Bool) (xs : List A)
      → ((x : A) → p x ≡ true → q x ≡ false)
      → any p (delete q xs) ≡ any p xs
  any-delete_other p q [] h = refl
  any-delete_other p q (x ∷ xs) h = ground (arith, h x, any-delete_other p q xs h)

  pub any-ext : (p q : A → Bool) (xs : List A) → ((x : A) → p x ≡ q x) → any p xs ≡ any q xs
  any-ext p q [] h = refl
  any-ext p q (x ∷ xs) h = ground (arith, h x, any-ext p q xs h)

module _ {ℓ} {A : Type ℓ} (p : A → Bool) where
  -- What a test finds, as a proposition on the rows, and back.
  pub any-Any :
      (P : A → Type 0) (xs : List A) → ((x : A) → p x ≡ true → P x) → any p xs ≡ true → Any P xs
  any-Any P [] f h = absurd (cc h)
  any-Any P (x ∷ xs) f h = elim (Bool-cases (p x)) [
    | inl y ↦ inl (f x y)
    | inr n ↦ inr (any-Any P xs f (rw n at h))
  ]

  pub Any-any :
      (P : A → Type 0) (xs : List A) → ((x : A) → P x → p x ≡ true) → Any P xs → any p xs ≡ true
  Any-any P [] f h = absurd h
  Any-any P (x ∷ xs) f (inl h) = rw (f x h) refl
  Any-any P (x ∷ xs) f (inr h) = ground (arith, Any-any P xs f h)

  pub Any-select :
      (P : A → Type 0) (xs : List A) → ((x : A) → P x → p x ≡ true) → Any P xs → Any P (select p xs)
  Any-select P [] f h = h
  Any-select P (x ∷ xs) f (inl h) = rw (f x h) (inl h)
  Any-select P (x ∷ xs) f (inr h) = elim (Bool-cases (p x)) [
    | inl y ↦ rw y (inr (Any-select P xs f h))
    | inr n ↦ rw n (Any-select P xs f h)
  ]

  pub All-select {κ} :
      (P : A → Type κ) (xs : List A) → All (λ x. p x ≡ true → P x) xs → All P (select p xs)
  All-select P [] h = tt
  All-select P (x ∷ xs) (h, hs) = elim (Bool-cases (p x)) [
    | inl y ↦ rw y (h y, All-select P xs hs)
    | inr n ↦ rw n (All-select P xs hs)
  ]

-- What is so of each row that is there.
pub All-Any {κ} :
    {A : Type 0} (P : A → Type κ) (xs : List A) → ((x : A) → Any (λ y. y ≡ x) xs → P x) → All P xs
All-Any P [] f = tt
All-Any P (x ∷ xs) f = (f x (inl refl), All-Any P xs (λ y k. f y (inr k)))

pub any-map {ℓ κ} :
    {A : Type ℓ} {B : Type κ} (p : B → Bool) (f : A → B) (xs : List A)
    → any p (map f xs) ≡ any (λ x. p (f x)) xs
any-map p f [] = refl
any-map p f (x ∷ xs) = ground (arith, any-map p f xs)

pub All-mono {ℓ κ} :
    {A : Type ℓ} (P Q : A → Type κ) (xs : List A) → ((x : A) → P x → Q x) → All P xs → All Q xs
All-mono P Q [] f h = tt
All-mono P Q (x ∷ xs) f (h, hs) = (f x h, All-mono P Q xs f hs)
