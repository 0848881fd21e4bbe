-- ===== src/Prelude/Rows/Finds.antt =====
-- What a look-up by key finds after an insertion, an update and a deletion.
use mathlib.Core.Path.{◌≡◌, refl}
use mathlib.Core.Bool.{Bool, true, false}
use mathlib.Core.Option.{Option, none, some}
use mathlib.Core.List.{List, [], ◌∷◌, ◌++◌}
use native.Mathlib.Omega.{arith}
use crypto_pigeon.Prelude.Rows.{find, any, update, delete}

abbrev pub or_else {ℓ} : {A : Type ℓ} → Option A → Option A → Option A
or_else none o = o
or_else (some x) o = some x

abbrev pub map_found {ℓ κ} : {A : Type ℓ} {B : Type κ} → (A → B) → Option A → Option B
map_found f none = none
map_found f (some x) = some (f x)

module _ {ℓ} {A : Type ℓ} where
  pub find-append :
      (p : A → Bool) (xs ys : List A) → find p (xs ++ ys) ≡ or_else (find p xs) (find p ys)
  find-append p [] ys = refl
  find-append p (x ∷ xs) ys = ground (arith, find-append p xs ys)

  pub find-append_found :
      (p : A → Bool) (xs ys : List A) (x : A) → find p xs ≡ some x → find p (xs ++ ys) ≡ some x
  find-append_found p xs ys x e = ground (arith, find-append p xs ys)

  pub find-append_none :
      (p : A → Bool) (xs ys : List A) → find p xs ≡ none → find p (xs ++ ys) ≡ find p ys
  find-append_none p xs ys e = ground (arith, find-append p xs ys)

  -- An update of the rows that are looked for, which keeps their key.
  pub find-update_self :
      (p : A → Bool) (f : A → A) (xs : List A)
      → ((x : A) → p x ≡ true → p (f x) ≡ true)
      → find p (update p f xs) ≡ map_found f (find p xs)
  find-update_self p f [] h = refl
  find-update_self p f (x ∷ xs) h = ground (arith, h x, find-update_self p f xs h)

  -- An update of other rows, which stay other rows.
  pub find-update_other :
      (p q : A → Bool) (f : A → A) (xs : List A)
      → ((x : A) → q x ≡ true → p x ≡ false)
      → ((x : A) → q x ≡ true → p (f x) ≡ false)
      → find p (update q f xs) ≡ find p xs
  find-update_other p q f [] h k = refl
  find-update_other p q f (x ∷ xs) h k = ground (arith, h x, k x, find-update_other p q f xs h k)

  pub find-delete_self : (p : A → Bool) (xs : List A) → find p (delete p xs) ≡ none
  find-delete_self p [] = refl
  find-delete_self p (x ∷ xs) = ground (arith, find-delete_self p xs)

  pub find-any : (p : A → Bool) (xs : List A) → any p xs ≡ false → find p xs ≡ none
  find-any p [] h = refl
  find-any p (x ∷ xs) h = ground (arith, find-any p xs)
