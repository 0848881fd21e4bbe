-- ===== src/Daemon/Passwords.antt =====
-- apps/local-daemon/src/vault-keys.ts: which passwords a vault accepts. A password is the list of its
-- code units; lower-casing is of ASCII, which is all that the list of common passwords has.
use crypto_pigeon.Prelude.{
  ℕ, suc, ◌≤◌, ◌≡◌, refl, sym, ap, ◌∙◌, Bool, true, false, not, ◌&&◌, ◌||◌, List, [], ◌∷◌, arith,
  Text, text_eq, text_eq_iff, lower, length, any, leb, ltb, if◌then◌else◌, Bool-cases, inl, inr,
}

abbrev pub common_passwords : List Text
common_passwords =
    (b'p' ∷ b'a' ∷ b's' ∷ b's' ∷ b'w' ∷ b'o' ∷ b'r' ∷ b'd' ∷ [])
    ∷ (b'p' ∷ b'a' ∷ b's' ∷ b's' ∷ b'w' ∷ b'o' ∷ b'r' ∷ b'd' ∷ b'1' ∷ b'2' ∷ b'3' ∷ [])
    ∷ (b'1' ∷ b'2' ∷ b'3' ∷ b'4' ∷ b'5' ∷ b'6' ∷ b'7' ∷ b'8' ∷ b'9' ∷ [])
    ∷ (b'1' ∷ b'2' ∷ b'3' ∷ b'4' ∷ b'5' ∷ b'6' ∷ b'7' ∷ b'8' ∷ [])
    ∷ (b'q' ∷ b'w' ∷ b'e' ∷ b'r' ∷ b't' ∷ b'y' ∷ b'u' ∷ b'i' ∷ b'o' ∷ b'p' ∷ [])
    ∷ (b'a' ∷ b'd' ∷ b'm' ∷ b'i' ∷ b'n' ∷ b'a' ∷ b'd' ∷ b'm' ∷ b'i' ∷ b'n' ∷ [])
    ∷ (b'l' ∷ b'e' ∷ b't' ∷ b'm' ∷ b'e' ∷ b'i' ∷ b'n' ∷ b'1' ∷ b'2' ∷ b'3' ∷ [])
    ∷ (b'i' ∷ b'l' ∷ b'o' ∷ b'v' ∷ b'e' ∷ b'y' ∷ b'o' ∷ b'u' ∷ [])
    ∷ (b'p' ∷ b'@' ∷ b's' ∷ b's' ∷ b'w' ∷ b'o' ∷ b'r' ∷ b'd' ∷ [])
    ∷ (b'c' ∷ b'h' ∷ b'a' ∷ b'n' ∷ b'g' ∷ b'e' ∷ b'i' ∷ b't' ∷ [])
    ∷ []

pub data Strength : Type 0 where
  valid too_short too_common too_simple : Strength

unfoldable pub is_upper : ℕ → Bool
is_upper c = leb b'A' c && leb c b'Z'

unfoldable pub is_lower : ℕ → Bool
is_lower c = leb b'a' c && leb c b'z'

unfoldable pub is_digit : ℕ → Bool
is_digit c = leb b'0' c && leb c b'9'

unfoldable pub has : (ℕ → Bool) → Text → Bool
has p [] = false
has p (c ∷ s) = p c || has p s

unfoldable pub is_mixed : Text → Bool
unfolding has is_upper is_lower is_digit
is_mixed s = has is_upper s && has is_lower s && has is_digit s

unfoldable pub is_common : Text → Bool
is_common s = any (λ c. text_eq (lower s) c) common_passwords

-- validatePasswordStrength
unfoldable pub validate_password_strength : Text → Strength
unfolding is_common is_mixed
validate_password_strength s =
    if ltb (length s) 12
    then too_short
    else if is_common s
    then too_common
    else if not (is_mixed s)
    then too_simple
    else valid

length-lower : (s : Text) → length (lower s) ≡ length s
length-lower [] = refl
length-lower (c ∷ s) = ap (λ n. suc n) (length-lower s)

abbrev is_long : Text → Bool
is_long c = leb 12 (length c)

shorter-differs :
    (s : Text) (cs : List Text)
    → is_long s ≡ true
    → any is_long cs ≡ false
    → any (λ c. text_eq s c) cs ≡ false
shorter-differs s [] h k = refl
shorter-differs s (c ∷ cs) h k = elim (Bool-cases (text_eq s c)) [
  | inr f ↦ rw f (shorter-differs s cs h (ground arith))
  | inl t ↦ let e : is_long c ≡ true = ap is_long (sym ((text_eq_iff s c).0 t)) ∙ h in ground arith
]

common_passwords-short : any is_long common_passwords ≡ false
common_passwords-short = refl

is_common-long : (s : Text) → 12 ≤ length s → is_common s ≡ false
unfolding is_common
is_common-long s h =
    let e : is_long (lower s) ≡ true = ground (arith, length-lower s) in
    shorter-differs (lower s) common_passwords e common_passwords-short

-- The verdict on a password depends on its length and on its kinds of characters only: no password is
-- rejected as common, since each in the list of common passwords is too short already.
pub validate_password_strength_lem :
    (s : Text)
    → validate_password_strength s
      ≡ (if ltb (length s) 12 then too_short else if is_mixed s then valid else too_simple)
unfolding validate_password_strength
validate_password_strength_lem s = elim (Bool-cases (ltb (length s) 12)) [
  | inl t ↦ rw t refl
  | inr f ↦ let long : 12 ≤ length s = ground arith in rw (f, is_common-long s long) (ground arith)
]
