-- ===== src/Daemon/Shares/Reconstruction.antt =====
-- Seven shares give the key back.
use crypto_pigeon.Prelude.{
  ℕ, zero, suc, ◌≡◌, refl, ap, subst, sym, ◌∙◌, Bool, true, false, some, List, [], ◌∷◌, ◌++◌, map,
  count, any, All, arith, ◌==◌, Bool-cases, inl, inr,
}
use mathlib.Core.Bool.{xor}
use crypto_pigeon.Prelude.Rows.Laws.{All-append}
use crypto_pigeon.Daemon.Shares.{
  Buffer, share_bits, xor_into, xor_all, zeros, split_seven, is_missing, present, reconstruct_seven,
}

pub count-xor_into : (a b : Buffer) → count (xor_into a b) ≡ count a
unfolding xor_into
count-xor_into [] b = refl
count-xor_into (x ∷ a) [] = ap suc (count-xor_into a [])
count-xor_into (x ∷ a) (y ∷ b) = ap suc (count-xor_into a b)

pub count-xor_all : (a : Buffer) (ss : List Buffer) → count (xor_all a ss) ≡ count a
unfolding xor_all
count-xor_all a [] = refl
count-xor_all a (s ∷ ss) = count-xor_all (xor_into a s) ss ∙ count-xor_into a s

pub count-zeros : (n : ℕ) → count (zeros n) ≡ n
unfolding zeros
count-zeros zero = refl
count-zeros (suc n) = ap suc (count-zeros n)

zeros-xor_into : (s : Buffer) → xor_into (zeros (count s)) s ≡ s
unfolding zeros xor_into xor
zeros-xor_into [] = refl
zeros-xor_into (true ∷ s) = ap (λ t. true ∷ t) (zeros-xor_into s)
zeros-xor_into (false ∷ s) = ap (λ t. false ∷ t) (zeros-xor_into s)

bit_cancel : (x y z : Bool) → xor (xor x z) (xor y z) ≡ xor x y
unfolding xor
bit_cancel true true true = refl
bit_cancel true true false = refl
bit_cancel true false true = refl
bit_cancel true false false = refl
bit_cancel false true true = refl
bit_cancel false true false = refl
bit_cancel false false true = refl
bit_cancel false false false = refl

-- The same share in both buffers cancels out.
xor_into_cancel :
    (a b s : Buffer) → count a ≡ count b → xor_into (xor_into a s) (xor_into b s) ≡ xor_into a b
unfolding xor_into
xor_into_cancel [] b s e = refl
xor_into_cancel (x ∷ a) [] s e = absurd (omega arith)
xor_into_cancel (x ∷ a) (y ∷ b) [] e = ap (λ t. xor x y ∷ t) (xor_into_cancel a b [] (omega arith))
xor_into_cancel (x ∷ a) (y ∷ b) (z ∷ s) e =
    cc (bit_cancel x y z, xor_into_cancel a b s (omega arith))

xor_all_cancel :
    (a b : Buffer) (ss : List Buffer)
    → count a ≡ count b
    → xor_into (xor_all a ss) (xor_all b ss) ≡ xor_into a b
unfolding xor_all
xor_all_cancel a b [] e = refl
xor_all_cancel a b (s ∷ ss) e =
    xor_all_cancel (xor_into a s) (xor_into b s) ss
      (count-xor_into a s ∙ e ∙ sym (count-xor_into b s))
    ∙ xor_into_cancel a b s e

pub xor_all-append :
    (a : Buffer) (ss ts : List Buffer) → xor_all a (ss ++ ts) ≡ xor_all (xor_all a ss) ts
unfolding xor_all
xor_all-append a [] ts = refl
xor_all-append a (s ∷ ss) ts = xor_all-append (xor_into a s) ss ts

pub xor_all-own_sum :
    (secret : Buffer) (random : List Buffer)
    → xor_all (zeros (count secret)) (random ++ xor_all secret random ∷ []) ≡ secret
unfolding xor_all
xor_all-own_sum secret random =
    xor_all-append (zeros (count secret)) random (xor_all secret random ∷ [])
    ∙ xor_all_cancel (zeros (count secret)) secret random (count-zeros (count secret))
    ∙ zeros-xor_into secret

present-some : (ss : List Buffer) → present (map some ss) ≡ ss
present-some [] = refl
present-some (s ∷ ss) = ap (λ t. s ∷ t) (present-some ss)

count-map-some : (ss : List Buffer) → count (map some ss) ≡ count ss
count-map-some [] = refl
count-map-some (s ∷ ss) = ap suc (count-map-some ss)

pub count-snoc : (ss : List Buffer) (s : Buffer) → count (ss ++ s ∷ []) ≡ suc (count ss)
count-snoc [] s = refl
count-snoc (t ∷ ss) s = ap suc (count-snoc ss s)

-- Buffers of 48 bytes each.
abbrev pub AreShares : List Buffer → Type 0
AreShares ss = All (λ s. count s ≡ share_bits) ss

none_missing : (ss : List Buffer) → AreShares ss → any is_missing (map some ss) ≡ false
unfolding is_missing
none_missing [] h = refl
none_missing (t ∷ ss) (h, hs) = ground (arith, none_missing ss hs)

pub reconstruct_whole :
    (ss : List Buffer)
    → count ss ≡ 7
    → AreShares ss
    → reconstruct_seven (map some ss) ≡ some (xor_all (zeros share_bits) ss)
unfolding reconstruct_seven
reconstruct_whole ss seven h =
    let whole : (count (map some ss) == 7) ≡ true = ground (arith, count-map-some ss) in
    rw (whole, none_missing ss h, present-some ss) refl

-- The seven shares of a split.
pub record IsSplit (random : List Buffer) (secret : Buffer) (shares : List Buffer) : Type 0 where
  pub listed : random ++ xor_all secret random ∷ [] ≡ shares
  pub last_size : count (xor_all secret random) ≡ share_bits
  pub seven : count shares ≡ 7
  pub sized : AreShares shares
  pub sum : xor_all (zeros share_bits) shares ≡ secret

pub split_seven-IsSplit :
    (random : List Buffer) (secret : Buffer) (shares : List Buffer)
    → count random ≡ 6
    → AreShares random
    → split_seven random secret ≡ some shares
    → IsSplit random secret shares
unfolding split_seven
split_seven-IsSplit random secret shares six h e = elim (Bool-cases (count secret == share_bits)) [
  | inr bad ↦ absurd (cc (rw bad at e))
  | inl good ↦
      let size : count secret ≡ share_bits = ground arith in
      let same : random ++ xor_all secret random ∷ [] ≡ shares = ground (arith, (rw good at e)) in
      let last_size = count-xor_all secret random ∙ size in
      record {
        listed = same;
        last_size = last_size;
        seven = ap count (sym same) ∙ count-snoc random (xor_all secret random) ∙ ap suc six;
        sized = subst AreShares same (All-append _ random _ h (last_size, tt));
        sum =
            ap (xor_all (zeros share_bits)) (sym same)
            ∙ ap (λ n. xor_all (zeros n) (random ++ xor_all secret random ∷ [])) (sym size)
            ∙ xor_all-own_sum secret random;
      }
]

-- What is put together from the seven shares of a split is the 48-byte secret, whatever the six
-- random buffers of 48 bytes were.
pub reconstruct_seven-split_seven :
    (random : List Buffer) (secret : Buffer) (shares : List Buffer)
    → count random ≡ 6
    → AreShares random
    → split_seven random secret ≡ some shares
    → reconstruct_seven (map some shares) ≡ some secret
reconstruct_seven-split_seven random secret shares six h e =
    let split = split_seven-IsSplit random secret shares six h e in
    reconstruct_whole shares split.seven split.sized ∙ ap some split.sum
