-- ===== src/Daemon/Shares.antt =====
-- apps/local-daemon/src/horcrux.ts: splitting the wrapped vault key in seven shares, and putting it
-- together. A buffer is the list of its bits; a share has 48 bytes, which are 384 bits. The six
-- random buffers are an argument.
pub mod Reconstruction
pub mod Seventh
pub mod Hiding
use crypto_pigeon.Prelude.{
  ℕ, zero, suc, Bool, true, false, not, ◌&&◌, ◌||◌, Option, none, some, List, [], ◌∷◌, ◌++◌, count,
  any, ◌==◌, if◌then◌else◌,
}
use mathlib.Core.Bool.{xor}

abbrev pub Buffer : Type 0
Buffer = List Bool

abbrev pub share_bits : ℕ
share_bits = 384

-- `left[i] ^= right[i]` over the length of the left buffer; past its end the right one is 0.
unfoldable pub xor_into : Buffer → Buffer → Buffer
xor_into [] cs = []
xor_into (b ∷ bs) [] = b ∷ xor_into bs []
xor_into (b ∷ bs) (c ∷ cs) = xor b c ∷ xor_into bs cs

-- The loop over the shares.
unfoldable pub xor_all : Buffer → List Buffer → Buffer
xor_all a [] = a
xor_all a (s ∷ ss) = xor_all (xor_into a s) ss

-- `Buffer.alloc(48)`
unfoldable pub zeros : ℕ → Buffer
zeros zero = []
zeros (suc n) = false ∷ zeros n

-- splitSeven; `none` is the exception.
unfoldable pub split_seven : List Buffer → Buffer → Option (List Buffer)
split_seven random secret =
    if not (count secret == share_bits) then none else some (random ++ xor_all secret random ∷ [])

unfoldable pub is_missing : Option Buffer → Bool
is_missing none = true
is_missing (some s) = not (count s == share_bits)

abbrev pub present : List (Option Buffer) → List Buffer
present [] = []
present (none ∷ ss) = present ss
present (some s ∷ ss) = s ∷ present ss

-- reconstructSeven; `none` is the exception.
unfoldable pub reconstruct_seven : List (Option Buffer) → Option Buffer
reconstruct_seven shares =
    if not (count shares == 7) || any is_missing shares
    then none
    else some (xor_all (zeros share_bits) (present shares))

-- In `scatter`, a seventh share that is given from outside: the sixth takes up the difference.
unfoldable pub use_seventh : Buffer → List Buffer → List Buffer
use_seventh seventh [] = []
use_seventh seventh (s ∷ []) = s ∷ []
use_seventh seventh (s ∷ t ∷ []) = xor_into s (xor_into t seventh) ∷ seventh ∷ []
use_seventh seventh (s ∷ t ∷ u ∷ ss) = s ∷ use_seventh seventh (t ∷ u ∷ ss)
