-- ===== src/Daemon/Files/Names.antt =====
-- The file names that go into a manifest.
use crypto_pigeon.Prelude.{
  ℕ, suc, ◌≤◌, ◌≡◌, refl, Bool, false, ◌||◌, [], ◌∷◌, Text, arith, take, length, any, zero,
}
use crypto_pigeon.Daemon.Files.{
  is_control, is_special, replace_special, strip_control, sanitize_filename,
}
use crypto_pigeon.Daemon.Files.Slices.{length-take}

any-take_none : (q : ℕ → Bool) (n : ℕ) (s : Text) → any q s ≡ false → any q (take n s) ≡ false
any-take_none q zero s h = refl
any-take_none q (suc n) [] h = refl
any-take_none q (suc n) (c ∷ s) h = ground (arith, any-take_none q n s)

-- What a file name must not hold.
abbrev pub is_unsafe : ℕ → Bool
is_unsafe c = is_control c || is_special c

none_unsafe : (s : Text) → any is_unsafe (replace_special (strip_control s)) ≡ false
unfolding replace_special strip_control is_control is_special
none_unsafe [] = refl
none_unsafe (c ∷ s) = ground (arith, none_unsafe s)

pub length-sanitize_filename : (name : Text) → length (sanitize_filename name) ≤ 255
unfolding sanitize_filename
length-sanitize_filename name = length-take 255 (replace_special (strip_control name))

-- A sanitized file name holds no control character, no path separator and none of the characters
-- that file systems reserve, and has 255 characters at most.
pub sanitize_filename-IsSafe :
    (name : Text)
    → (any is_unsafe (sanitize_filename name) ≡ false) × (length (sanitize_filename name) ≤ 255)
unfolding sanitize_filename
sanitize_filename-IsSafe name = (
  any-take_none is_unsafe 255 (replace_special (strip_control name)) (none_unsafe name),
  length-take 255 (replace_special (strip_control name)),
)
