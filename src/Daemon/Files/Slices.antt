-- ===== src/Daemon/Files/Slices.antt =====
-- The chunks of a text, put together, are the text.
use crypto_pigeon.Prelude.{
  ℕ, zero, suc, ◌+◌, ◌-◌, ◌*◌, ◌≤◌, ◌≡◌, refl, ap, sym, ◌∙◌, min, Text, [], ◌∷◌, ◌++◌, arith, take,
  drop, length,
}
use native.Mathlib.Nat.{zero-add, suc-add, suc-min-suc, zero-mul}
use crypto_pigeon.Daemon.Files.{chunk_at}

pub length-append : (s t : Text) → length (s ++ t) ≡ length s + length t
length-append [] t = omega arith
length-append (c ∷ s) t = omega (arith, length-append s t)

length-drop : (n : ℕ) (s : Text) → length (drop n s) ≡ length s - n
length-drop zero s = omega arith
length-drop (suc n) [] = omega arith
length-drop (suc n) (c ∷ s) = omega (arith, length-drop n s)

drop_nil : (n : ℕ) → drop n [] ≡ []
drop_nil zero = refl
drop_nil (suc n) = refl

take_nil : (n : ℕ) → take n [] ≡ []
take_nil zero = refl
take_nil (suc n) = refl

take-min : (n : ℕ) (s : Text) → take (min n (length s)) s ≡ take n s
take-min zero s = ground arith
take-min (suc n) [] = take_nil (min (suc n) 0)
take-min (suc n) (c ∷ s) = rw suc-min-suc (ap (λ t. c ∷ t) (take-min n s))

take-add : (a b : ℕ) (s : Text) → take (a + b) s ≡ take a s ++ take b (drop a s)
take-add zero b s = rw zero-add refl
take-add (suc a) b [] = take_nil (suc a + b) ∙ sym (take_nil b)
take-add (suc a) b (c ∷ s) = rw suc-add (ap (λ t. c ∷ t) (take-add a b s))

drop-drop : (a b : ℕ) (s : Text) → drop b (drop a s) ≡ drop (a + b) s
drop-drop zero b s = rw zero-add refl
drop-drop (suc a) b [] = drop_nil b ∙ sym (drop_nil (suc a + b))
drop-drop (suc a) b (c ∷ s) = rw suc-add (drop-drop a b s)

pub take_all : (n : ℕ) (s : Text) → length s ≤ n → take n s ≡ s
take_all n [] h = take_nil n
take_all zero (c ∷ s) h = absurd (omega arith)
take_all (suc n) (c ∷ s) h = ap (λ t. c ∷ t) (take_all n s (omega arith))

-- The chunk `i` is what stands after the chunks before it.
pub chunk_at-take : (w i : ℕ) (p : Text) → chunk_at w i p ≡ take w (drop (i * w) p)
chunk_at-take w i p =
    ap (λ n. take n (drop (i * w) p)) (ground (arith, length-drop (i * w) p))
    ∙ take-min w (drop (i * w) p)

-- The chunks from `i` on, `n` of them, put together.
unfoldable pub joined : ℕ → Text → ℕ → ℕ → Text
joined w p i zero = []
joined w p i (suc n) = chunk_at w i p ++ joined w p (suc i) n

suc_mul : (n w : ℕ) → suc n * w ≡ w + n * w
suc_mul n w = grind arith

mul_suc : (i w : ℕ) → i * w + w ≡ suc i * w
mul_suc i w = grind arith

joined-take : (w : ℕ) (p : Text) (i n : ℕ) → joined w p i n ≡ take (n * w) (drop (i * w) p)
unfolding joined
joined-take w p i zero = rw (zero-mul w) refl
joined-take w p i (suc n) =
    ap (λ t. t ++ joined w p (suc i) n) (chunk_at-take w i p)
    ∙ ap (λ t. take w (drop (i * w) p) ++ t) (joined-take w p (suc i) n)
    ∙ ap (λ t. take w (drop (i * w) p) ++ take (n * w) t)
        (sym (drop-drop (i * w) w p ∙ ap (λ k. drop k p) (mul_suc i w)))
    ∙ sym (take-add w (n * w) (drop (i * w) p))
    ∙ ap (λ k. take k (drop (i * w) p)) (sym (suc_mul n w))

-- As many chunks as the text needs are the text.
pub joined-eq : (w n : ℕ) (p : Text) → length p ≤ n * w → joined w p 0 n ≡ p
joined-eq w n p h = joined-take w p 0 n ∙ rw (zero-mul w) (take_all (n * w) p h)

pub length-take : (n : ℕ) (s : Text) → length (take n s) ≤ n
length-take zero s = omega arith
length-take (suc n) [] = omega arith
length-take (suc n) (c ∷ s) = omega (arith, length-take n s)

pub take-append : (s t : Text) → take (length s) (s ++ t) ≡ s
take-append [] t = refl
take-append (c ∷ s) t = ap (λ r. c ∷ r) (take-append s t)

pub drop-append : (s t : Text) → drop (length s) (s ++ t) ≡ t
drop-append [] t = refl
drop-append (c ∷ s) t = drop-append s t
