-- ===== src/Daemon/Onion/Mailbox.antt =====
-- What the onion service's inbox holds after a sequence of requests.
use crypto_pigeon.Prelude.{
  ℕ, ◌≤◌, ◌≡◌, refl, sym, subst, ◌∙◌, Bool, true, Option, none, some, List, [], ◌∷◌, Text, arith,
  length, find, any, All, ltb, Bool-cases, inl, inr,
}
use crypto_pigeon.Prelude.Rows.Laws.{All-append, any_of_find}
use crypto_pigeon.Relay.Db.{Opaque}
use crypto_pigeon.Daemon.Onion.{
  Peer, Envelope, Parcel, post, get, envelopes, chunk, elsewhere, other, Method, Target, Incoming,
  Signed, Reply, refused, accepted, served, body_too_large, Tables, Onion, is_device,
  store_envelope, serve, check_peer, check_time, noted, receive,
}
use crypto_pigeon.Daemon.Onion.Admission.{IsAuthorized, IsStored, Admits, receive-Admits}

store_envelope-device_id :
    (r : Incoming) (o : Option Envelope) (s : Onion)
    → (store_envelope r o s).1.device_id ≡ s.device_id
unfolding store_envelope
store_envelope-device_id r none s = refl
store_envelope-device_id r (some e) s = ground arith

serve-device_id :
    (parse : Text → Option Envelope) (now : ℕ) (peer : Peer) (r : Incoming) (m : Method)
    (t : Target) (s : Onion)
    → (serve parse now peer r m t s).1.device_id ≡ s.device_id
unfolding serve
serve-device_id parse now peer r post envelopes s = store_envelope-device_id r (parse r.body) _
serve-device_id parse now peer r get (chunk blob index) s = ground arith
serve-device_id parse now peer r get envelopes s = refl
serve-device_id parse now peer r get (elsewhere path) s = refl
serve-device_id parse now peer r post (chunk blob index) s = refl
serve-device_id parse now peer r post (elsewhere path) s = refl
serve-device_id parse now peer r other target s = refl

module _ (verify : Opaque → Signed → Opaque → Bool) (parse : Text → Option Envelope) where
  check_peer-device_id :
      (now : ℕ) (r : Incoming) (time : ℕ) (o : Option Peer) (s : Onion)
      → (check_peer verify parse now r time o s).1.device_id ≡ s.device_id
  unfolding check_peer
  check_peer-device_id now r time none s = refl
  check_peer-device_id now r time (some peer) s =
      ground (arith, serve-device_id parse now peer r r.method r.target s)

  check_time-device_id :
      (arrived now : ℕ) (r : Incoming) (o : Option ℕ) (s : Onion)
      → (check_time verify parse arrived now r o s).1.device_id ≡ s.device_id
  unfolding check_time
  check_time-device_id arrived now r none s = refl
  check_time-device_id arrived now r (some time) s =
      ground (arith, check_peer-device_id now r time (find (is_device r.sender) s.tables.peers) s)

  noted-device_id : (o : Reply × Onion) → (noted o).1.device_id ≡ o.1.device_id
  unfolding noted
  noted-device_id (refused fault, s) = refl
  noted-device_id (accepted, s) = refl
  noted-device_id (served part, s) = refl

  receive-device_id :
      (arrived now : ℕ) (r : Incoming) (s : Onion)
      → (receive verify parse arrived now r s).1.device_id ≡ s.device_id
  unfolding receive
  receive-device_id arrived now r s = elim (Bool-cases (ltb 786432 (length r.body))) [
    | inl large ↦ rw large (noted-device_id (refused body_too_large, s))
    | inr small ↦ rw small (
        noted-device_id (check_time verify parse arrived now r r.time s)
        ∙ check_time-device_id arrived now r r.time s)
  ]

-- A row of the inbox of `device` that one of the pinned peers has sent.
pub record IsPinned (device : Opaque) (peers : List Peer) (q : Parcel) : Type 0 where
  pub ours : q.envelope.mailbox_id ≡ device
  pub small : length q.envelope.ciphertext ≤ 524288
  pub pinned : any (is_device q.sender_id) peers ≡ true

-- Each row of the inbox is of a pinned peer.
abbrev pub ArePinned : Opaque → Tables → Type 0
ArePinned device t = All (IsPinned device t.peers) t.inbox

-- A sequence of requests, each with the times at which it arrives and is handled.
unfoldable pub receive_all :
    (Opaque → Signed → Opaque → Bool)
    → (Text → Option Envelope)
    → List (ℕ × ℕ × Incoming)
    → Onion
    → Onion
receive_all verify parse [] s = s
receive_all verify parse ((arrived, now, r) ∷ rs) s =
    receive_all verify parse rs (receive verify parse arrived now r s).1

module _ (verify : Opaque → Signed → Opaque → Bool) (parse : Text → Option Envelope) where
  IsStored-ArePinned :
      (arrived : ℕ) (r : Incoming) (s : Onion) (peer : Peer) (t : Tables)
      → IsAuthorized verify arrived r s peer
      → IsStored parse r s t
      → ArePinned s.device_id s.tables
      → ArePinned s.device_id t
  IsStored-ArePinned arrived r s peer t a k h = elim (k.stored) [
    | inl (there, e) ↦ subst (ArePinned s.device_id) (sym e) h
    | inr (new, e) ↦ subst (ArePinned s.device_id) (sym e) (
        All-append (IsPinned s.device_id s.tables.peers) s.tables.inbox
          (record { envelope = k.envelope; sender_id = r.sender } ∷ []) h
          (
            record {
              ours = k.ours;
              small = k.small;
              pinned = any_of_find (is_device r.sender) s.tables.peers peer a.listed;
            },
            tt,
          ))
  ]

  Admits-ArePinned :
      (arrived now : ℕ) (r : Incoming) (s : Onion) (reply : Reply) (t : Tables)
      → Admits verify parse arrived now r s reply t
      → ArePinned s.device_id s.tables
      → ArePinned s.device_id t
  Admits-ArePinned arrived now r s (refused fault) t e h = subst (ArePinned s.device_id) (sym e) h
  Admits-ArePinned arrived now r s accepted t (peer, a, k) h =
      IsStored-ArePinned arrived r s peer t a k h
  Admits-ArePinned arrived now r s (served part) t (peer, a, k) h =
      subst (ArePinned s.device_id) (sym k.same) h

  -- Whatever requests arrive in whatever order, forged and repeated ones included, each row of the
  -- inbox stays one that is addressed to this device, is at most 512 KiB, and is stored under the
  -- id of a pinned peer, if that was so before.
  pub receive_all-ArePinned :
      (rs : List (ℕ × ℕ × Incoming)) (s : Onion)
      → ArePinned s.device_id s.tables
      → ArePinned s.device_id (receive_all verify parse rs s).tables
  unfolding receive_all
  receive_all-ArePinned [] s h = h
  receive_all-ArePinned ((arrived, now, r) ∷ rs) s h =
      let s' = (receive verify parse arrived now r s).1 in
      let same = receive-device_id verify parse arrived now r s in
      let next =
        Admits-ArePinned arrived now r s (receive verify parse arrived now r s).0 s'.tables
          (receive-Admits verify parse arrived now r s) h in
      subst (λ d. ArePinned d (receive_all verify parse rs s').tables) same
        (receive_all-ArePinned rs s' (subst (λ d. ArePinned d s'.tables) (sym same) next))
