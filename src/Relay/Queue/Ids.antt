-- ===== src/Relay/Queue/Ids.antt =====
-- The two spellings of an envelope's id, `hexToUuid` and `uuidToHex`.
use Prim.Native.Nat.add
use mathlib.Core.List.{append_assoc, map-append}
use crypto_pigeon.Prelude.{
  ℕ, zero, suc, ◌+◌, ◌-◌, ◌≤◌, ◌≡◌, ◌≢◌, refl, ◌∙◌, true, false, [], ◌∷◌, ◌++◌, arith, Text, lower,
  lower-lower, contains, take, drop, slice, length, remove,
}
use crypto_pigeon.Relay.Queue.{dash, hex_to_uuid, uuid_to_hex, message_id}

remove-append : (c : ℕ) (s t : Text) → remove c (s ++ t) ≡ remove c s ++ remove c t
remove-append c [] t = refl
remove-append c (d ∷ s) t = ground (arith, remove-append c s t)

remove_absent : (c : ℕ) (s : Text) → contains c s ≡ false → remove c s ≡ s
remove_absent c [] h = refl
remove_absent c (d ∷ s) h = ground (arith, remove_absent c s)

contains-remove : (c : ℕ) (s : Text) → contains c (remove c s) ≡ false
contains-remove c [] = refl
contains-remove c (d ∷ s) = ground (arith, contains-remove c s)

-- A dash is no letter, so lower case neither makes nor removes one.
contains-dash-lower : (s : Text) → contains dash (lower s) ≡ contains dash s
contains-dash-lower [] = refl
contains-dash-lower (d ∷ s) = ground (arith, contains-dash-lower s)

remove-dash-lower : (s : Text) → remove dash (lower s) ≡ lower (remove dash s)
remove-dash-lower [] = refl
remove-dash-lower (d ∷ s) = ground (arith, remove-dash-lower s)

take-append-drop : (n : ℕ) (s : Text) → take n s ++ drop n s ≡ s
take-append-drop zero s = refl
take-append-drop (suc n) [] = refl
take-append-drop (suc n) (c ∷ s) = ground (arith, take-append-drop n s)

drop-drop : (m n : ℕ) (s : Text) → drop m (drop n s) ≡ drop (n + m) s
drop-drop m zero s = rw add.zero
drop-drop zero (suc n) [] = rw add.suc
drop-drop (suc m) (suc n) [] = rw add.suc
drop-drop m (suc n) (c ∷ s) = rw add.suc (drop-drop m n s)

take-drop-append : (n k : ℕ) (s : Text) → take k (drop n s) ++ drop (n + k) s ≡ drop n s
take-drop-append n k s = rw (← drop-drop k n s) (take-append-drop k (drop n s))

take_all : (n : ℕ) (s : Text) → length s ≤ n → take n s ≡ s
take_all zero [] h = refl
take_all (suc n) [] h = refl
take_all zero (c ∷ s) h = absurd (omega arith)
take_all (suc n) (c ∷ s) h = ground (arith, take_all n s)

length-drop : (n : ℕ) (s : Text) → length (drop n s) ≡ length s - n
length-drop zero s = omega arith
length-drop (suc n) [] = omega arith
length-drop (suc n) (c ∷ s) = omega (arith, length-drop n s)

abbrev joined : Text → Text → Text → Text → Text → Text
joined a b c d e = a ++ (b ++ (c ++ (d ++ e)))

-- The five groups of a text of 32 characters are the text.
slices-join :
    (s : Text)
    → length s ≡ 32
    → joined (slice 0 8 s) (slice 8 12 s) (slice 12 16 s) (slice 16 20 s) (slice 20 32 s) ≡ s
slices-join s h =
    rw
      (
        take_all 12 (drop 20 s) (omega (arith, length-drop 20 s)),
        take-drop-append 16 4 s,
        take-drop-append 12 4 s,
        take-drop-append 8 4 s,
      )
      (take-append-drop 8 s)

remove_dashes :
    (a b c d e : Text)
    → remove dash (a ++ (dash ∷ b) ++ (dash ∷ c) ++ (dash ∷ d) ++ (dash ∷ e))
      ≡ remove dash (joined a b c d e)
remove_dashes a b c d e = simp (remove-append, append_assoc)

-- A 32-digit id comes back from the database as it was sent, in lower case.
pub uuid_to_hex-hex_to_uuid :
    (s : Text) → length s ≡ 32 → contains dash s ≡ false → uuid_to_hex (hex_to_uuid s) ≡ lower s
unfolding uuid_to_hex hex_to_uuid
uuid_to_hex-hex_to_uuid s h k = rw k (
    rw remove-dash-lower
      (rw lower-lower (rw remove_dashes (rw (slices-join s h) (rw (remove_absent dash s k))))))

take-lower : (n : ℕ) (s : Text) → take n (lower s) ≡ lower (take n s)
take-lower zero s = refl
take-lower (suc n) [] = refl
take-lower (suc n) (c ∷ s) = ground (arith, take-lower n s)

drop-lower : (n : ℕ) (s : Text) → drop n (lower s) ≡ lower (drop n s)
drop-lower zero s = refl
drop-lower (suc n) [] = refl
drop-lower (suc n) (c ∷ s) = drop-lower n s

message_id-lower : (s : Text) → contains dash s ≡ false → message_id (lower s) ≡ message_id s
unfolding message_id hex_to_uuid
message_id-lower s k =
    rw contains-dash-lower (rw k (simp (take-lower, drop-lower, map-append, lower-lower)))

-- The id under which a 32-digit envelope is fetched acknowledges that envelope.
pub message_id-uuid_to_hex :
    (s : Text)
    → length s ≡ 32
    → contains dash s ≡ false
    → message_id (uuid_to_hex (hex_to_uuid s)) ≡ message_id s
message_id-uuid_to_hex s h k = rw (uuid_to_hex-hex_to_uuid s h k) (message_id-lower s k)

-- An id that is sent as a UUID, with dashes, is fetched under another spelling.
pub uuid_to_hex-message_id_ne : (s : Text) → contains dash s ≡ true → uuid_to_hex (message_id s) ≢ s
unfolding uuid_to_hex
uuid_to_hex-message_id_ne s h e =
    let absent =
      contains-dash-lower (remove dash (message_id s)) ∙ contains-remove dash (message_id s) in
    cc absent

uuid_to_hex-lower : (t : Text) → uuid_to_hex (lower t) ≡ uuid_to_hex t
unfolding uuid_to_hex
uuid_to_hex-lower t = rw remove-dash-lower (rw lower-lower)

pub uuid_to_hex-message_id :
    (s : Text) → length s ≡ 32 → contains dash s ≡ false → uuid_to_hex (message_id s) ≡ lower s
unfolding message_id
uuid_to_hex-message_id s h k = uuid_to_hex-lower (hex_to_uuid s) ∙ uuid_to_hex-hex_to_uuid s h k
