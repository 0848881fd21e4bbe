-- ===== src/Relay/Dropboxes/Boxes.antt =====
-- What is fetched from the boxes.
use crypto_pigeon.Prelude.{
  ℕ, zero, suc, ◌+◌, ◌<◌, ◌≡◌, refl, ap, ◌∙◌, Bool, true, false, ◌&&◌, List, [], ◌∷◌, ◌++◌, arith,
  any, select, delete, limit, contains, count, ◌==◌,
}
use crypto_pigeon.Prelude.Rows.Laws.{any-map, any-select}
use crypto_pigeon.Relay.Db.{Uuid, Opaque}
use crypto_pigeon.Relay.Sockets.{Net}
use crypto_pigeon.Relay.Dropboxes.{
  Blind, BlindEnvelope, blind_row, insert_blind, blind_send, is_waiting, envelope_of, blind_fetch,
  is_named, blind_ack, thirty_days,
}

module _ {ℓ} {A : Type ℓ} where
  any-limit : (n : ℕ) (p : A → Bool) (xs : List A) → any p xs ≡ false → any p (limit n xs) ≡ false
  any-limit zero p xs h = refl
  any-limit (suc n) p [] h = refl
  any-limit (suc n) p (x ∷ xs) h = ground (arith, any-limit n p xs)

  -- The row after fewer than `n` others is within the limit.
  any-limit_snoc :
      (n : ℕ) (p : A → Bool) (xs : List A) (x : A)
      → count xs < n
      → p x ≡ true
      → any p (limit n (xs ++ x ∷ [])) ≡ true
  any-limit_snoc zero p xs x h k = absurd (omega arith)
  any-limit_snoc (suc n) p [] x h k = ground arith
  any-limit_snoc (suc n) p (y ∷ xs) x h k = ground (arith, any-limit_snoc n p xs x)

  select-snoc :
      (p : A → Bool) (xs : List A) (x : A)
      → p x ≡ true
      → select p (xs ++ x ∷ []) ≡ select p xs ++ x ∷ []
  select-snoc p [] x h = rw h
  select-snoc p (y ∷ xs) x h = ground (arith, select-snoc p xs x h)

abbrev pub is_same : BlindEnvelope → BlindEnvelope → Bool
is_same e f =
    f.envelope_id == e.envelope_id && f.dropbox_id == e.dropbox_id && f.ciphertext == e.ciphertext

row-waiting :
    (now now' : ℕ) (hash : Opaque) (e : BlindEnvelope) (boxes : List Opaque)
    → contains e.dropbox_id boxes ≡ true
    → now' < now + thirty_days
    → is_waiting now' boxes (blind_row now hash e) ≡ true
unfolding is_waiting blind_row
row-waiting now now' hash e boxes h k = ground arith

row-same :
    (now : ℕ) (hash : Opaque) (e : BlindEnvelope)
    → is_same e (envelope_of (blind_row now hash e)) ≡ true
unfolding envelope_of blind_row
row-same now hash e = ground arith

-- A blind envelope under a fresh id is fetched, unchanged and without its sender, by whoever names
-- its box, for thirty days, as long as fewer than 256 envelopes wait before it in the boxes named.
pub blind_fetch-blind_send :
    (sha256 : Opaque → Uuid → Opaque) (now now' : ℕ) (salt : Opaque) (device : Uuid)
    (e : BlindEnvelope) (rows : List Blind) (net : Net) (boxes : List Opaque)
    → any (λ b. b.id == e.envelope_id) rows ≡ false
    → contains e.dropbox_id boxes ≡ true
    → now' < now + thirty_days
    → count (select (is_waiting now' boxes) rows) < 256
    → any (is_same e) (blind_fetch now' boxes (blind_send sha256 now salt device e rows net).0)
      ≡ true
unfolding blind_send blind_fetch insert_blind
blind_fetch-blind_send sha256 now now' salt device e rows net boxes fresh named early room =
    let row = blind_row now (sha256 salt device) e in
    let new : any (λ b. b.id == row.id) rows ≡ false = unfold blind_row in fresh in
    rw new (
      any-map (is_same e) envelope_of
        (limit 256 (select (is_waiting now' boxes) (rows ++ row ∷ [])))
      ∙ ap (λ bs. any (λ b. is_same e (envelope_of b)) (limit 256 bs))
          (select-snoc (is_waiting now' boxes) rows row
            (row-waiting now now' (sha256 salt device) e boxes named early))
      ∙ any-limit_snoc 256 (λ b. is_same e (envelope_of b)) (select (is_waiting now' boxes) rows)
          row room (row-same now (sha256 salt device) e))

abbrev is_listed : List Uuid → BlindEnvelope → Bool
is_listed ids e = contains e.envelope_id ids

waiting-named :
    (ids : List Uuid) (boxes : List Opaque) (now : ℕ) (rows : List Blind)
    → any
        (λ b. is_waiting now boxes b && is_listed ids (envelope_of b))
        (delete (is_named ids boxes) rows)
      ≡ false
unfolding is_waiting is_named envelope_of
waiting-named ids boxes now [] = refl
waiting-named ids boxes now (b ∷ rows) = ground (arith, waiting-named ids boxes now rows)

-- An envelope that was acknowledged for its box is not fetched from it again.
pub blind_fetch-blind_ack :
    (ids : List Uuid) (boxes : List Opaque) (now : ℕ) (rows : List Blind)
    → any (λ e. contains e.envelope_id ids) (blind_fetch now boxes (blind_ack ids boxes rows))
      ≡ false
unfolding blind_fetch blind_ack
blind_fetch-blind_ack ids boxes now rows =
    let left = delete (is_named ids boxes) rows in
    any-map (is_listed ids) envelope_of (limit 256 (select (is_waiting now boxes) left))
    ∙ any-limit 256 (λ b. is_listed ids (envelope_of b)) (select (is_waiting now boxes) left)
        (any-select (λ b. is_listed ids (envelope_of b)) (is_waiting now boxes) left
          ∙ waiting-named ids boxes now rows)
