-- ===== src/Daemon/Shares/Seventh.antt =====
-- A seventh share that is given from outside leaves the secret as it was.
use crypto_pigeon.Prelude.{
  ◌≡◌, refl, ap, sym, ◌∙◌, suc, Bool, true, false, List, [], ◌∷◌, ◌++◌, count, arith,
}
use mathlib.Core.Bool.{xor}
use mathlib.Core.List.{map}
use mathlib.Core.Option.{some}
use crypto_pigeon.Daemon.Shares.{
  Buffer, share_bits, xor_into, xor_all, zeros, split_seven, reconstruct_seven, use_seventh,
}
use crypto_pigeon.Daemon.Shares.Reconstruction.{
  count-xor_into, count-zeros, AreShares, reconstruct_whole, split_seven-IsSplit,
}

bit_moved : (x y z w : Bool) → xor (xor x (xor y (xor z w))) w ≡ xor (xor x y) z
unfolding xor
bit_moved true true true true = refl
bit_moved true true true false = refl
bit_moved true true false true = refl
bit_moved true true false false = refl
bit_moved true false true true = refl
bit_moved true false true false = refl
bit_moved true false false true = refl
bit_moved true false false false = refl
bit_moved false true true true = refl
bit_moved false true true false = refl
bit_moved false true false true = refl
bit_moved false true false false = refl
bit_moved false false true true = refl
bit_moved false false true false = refl
bit_moved false false false true = refl
bit_moved false false false false = refl

-- The sixth share takes up what the seventh has changed by, where the buffers are of one length.
moved_sum :
    (a p q e : Buffer)
    → count a ≡ count p
    → count a ≡ count q
    → count a ≡ count e
    → xor_into (xor_into a (xor_into p (xor_into q e))) e ≡ xor_into (xor_into a p) q
unfolding xor_into
moved_sum [] p q e hp hq he = refl
moved_sum (x ∷ a) [] q e hp hq he = absurd (omega arith)
moved_sum (x ∷ a) (y ∷ p) [] e hp hq he = absurd (omega arith)
moved_sum (x ∷ a) (y ∷ p) (z ∷ q) [] hp hq he = absurd (omega arith)
moved_sum (x ∷ a) (y ∷ p) (z ∷ q) (w ∷ e) hp hq he =
    cc (bit_moved x y z w, moved_sum a p q e (omega arith) (omega arith) (omega arith))

use_seventh-AreShares :
    (e : Buffer) (ss : List Buffer)
    → count e ≡ share_bits
    → AreShares ss
    → AreShares (use_seventh e ss)
unfolding use_seventh
use_seventh-AreShares e [] size h = h
use_seventh-AreShares e (s ∷ []) size h = h
use_seventh-AreShares e (s ∷ t ∷ []) size (hs, h) =
    (count-xor_into s (xor_into t e) ∙ hs, (size, tt))
use_seventh-AreShares e (s ∷ t ∷ u ∷ ss) size (hs, h) =
    (hs, use_seventh-AreShares e (t ∷ u ∷ ss) size h)

count-use_seventh : (e : Buffer) (ss : List Buffer) → count (use_seventh e ss) ≡ count ss
unfolding use_seventh
count-use_seventh e [] = refl
count-use_seventh e (s ∷ []) = refl
count-use_seventh e (s ∷ t ∷ []) = refl
count-use_seventh e (s ∷ t ∷ u ∷ ss) = ap suc (count-use_seventh e (t ∷ u ∷ ss))

xor_all-use_seventh :
    (a e q : Buffer) (ss : List Buffer)
    → count a ≡ share_bits
    → count e ≡ share_bits
    → count q ≡ share_bits
    → AreShares ss
    → xor_all a (use_seventh e (ss ++ q ∷ [])) ≡ xor_all a (ss ++ q ∷ [])
unfolding xor_all use_seventh
xor_all-use_seventh a e q [] ha he hq h = refl
xor_all-use_seventh a e q (s ∷ []) ha he hq (hs, h) =
    moved_sum a s q e (ha ∙ sym hs) (ha ∙ sym hq) (ha ∙ sym he)
xor_all-use_seventh a e q (s ∷ t ∷ []) ha he hq (hs, h) =
    xor_all-use_seventh (xor_into a s) e q (t ∷ []) (count-xor_into a s ∙ ha) he hq h
xor_all-use_seventh a e q (s ∷ t ∷ u ∷ ss) ha he hq (hs, h) =
    xor_all-use_seventh (xor_into a s) e q (t ∷ u ∷ ss) (count-xor_into a s ∙ ha) he hq h

-- The shares of a split still give the secret back after `scatter` has put a seventh share of 48
-- bytes from outside in the place of its own.
pub reconstruct_seven-use_seventh :
    (random : List Buffer) (secret e : Buffer) (shares : List Buffer)
    → count random ≡ 6
    → AreShares random
    → count e ≡ share_bits
    → split_seven random secret ≡ some shares
    → reconstruct_seven (map some (use_seventh e shares)) ≡ some secret
reconstruct_seven-use_seventh random secret e shares six h size is_split =
    let split = split_seven-IsSplit random secret shares six h is_split in
    reconstruct_whole (use_seventh e shares) (count-use_seventh e shares ∙ split.seven)
      (use_seventh-AreShares e shares size split.sized)
    ∙ ap some (
        ap (λ ss. xor_all (zeros share_bits) (use_seventh e ss)) (sym split.listed)
        ∙ xor_all-use_seventh (zeros share_bits) e (xor_all secret random) random
            (count-zeros share_bits) size split.last_size h
        ∙ ap (xor_all (zeros share_bits)) split.listed
        ∙ split.sum)
