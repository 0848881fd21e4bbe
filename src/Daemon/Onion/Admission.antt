-- ===== src/Daemon/Onion/Admission.antt =====
-- Whom the onion service answers, and what it gives.
use crypto_pigeon.Prelude.{
  ℕ, ◌≤◌, ◌≡◌, refl, ◌⊎◌, [], ◌∷◌, ◌++◌, Bool, true, false, Option, none, some, Text, arith, length,
  find, any, ◌==◌, ltb, Bool-cases, inl, inr,
}
use crypto_pigeon.Prelude.Rows.Laws.{any-append}
use crypto_pigeon.Relay.Db.{Opaque}
use crypto_pigeon.Daemon.Onion.{
  Peer, Envelope, Parcel, Part, post, get, envelopes, chunk, elsewhere, other, Method, Target,
  Incoming, Signed, signing_bytes, Reply, refused, accepted, served, body_too_large, is_open,
  Tables, Onion, is_nonce, distance, is_timely, is_device, is_changed, insert_parcel,
  is_deliverable, store_envelope, is_shared, is_part, part_reply, serve, check_peer, check_time,
  noted, receive,
}

-- The peer that a request, which arrived at `arrived`, comes from.
pub record IsAuthorized (verify : Opaque → Signed → Opaque → Bool) (arrived : ℕ) (r : Incoming)
    (s : Onion) (peer : Peer) : Type 0 where
  pub time : ℕ
  pub dated : r.time ≡ some time
  pub timely : distance arrived time ≤ 120000
  pub once : is_nonce r.nonce ≡ true
  pub running : s.stopped ≡ false
  pub listed : find (is_device r.sender) s.tables.peers ≡ some peer
  pub signed : verify peer.auth_key (signing_bytes r time) r.signature ≡ true
  pub unchanged : any (is_changed peer.contact_id) s.tables.contacts ≡ false

-- Whether a row of the inbox has the id of an envelope.
abbrev pub has_envelope : Opaque → Parcel → Bool
has_envelope id q = q.envelope.envelope_id == id

-- A row with the envelope's id was there, and no table changed; or there was none, and the envelope
-- is the last row of the inbox, under the sender's id.
abbrev pub IsInserted : Envelope → Opaque → Tables → Tables → Type 0
IsInserted e sender t t' =
    ((any (has_envelope e.envelope_id) t.inbox ≡ true) × (t' ≡ t))
    ⊎ ((any (has_envelope e.envelope_id) t.inbox ≡ false)
        × (t' ≡ record t { inbox = t.inbox ++ record { envelope = e; sender_id = sender } ∷ [] }))

abbrev with_parcel : Envelope → Opaque → Tables → Tables
with_parcel e sender t = record t {
  inbox = insert_parcel (record { envelope = e; sender_id = sender }) t.inbox;
}

insert_parcel-IsInserted :
    (e : Envelope) (sender : Opaque) (t : Tables)
    → (any (has_envelope e.envelope_id) (with_parcel e sender t).inbox ≡ true)
      × IsInserted e sender t (with_parcel e sender t)
unfolding insert_parcel
insert_parcel-IsInserted e sender t = elim (Bool-cases (any (has_envelope e.envelope_id) t.inbox)) [
  | inl there ↦ rw there (there, inl (refl, refl))
  | inr new ↦ rw new (
    ground (
      arith,
      any-append (has_envelope e.envelope_id) t.inbox
          (record { envelope = e; sender_id = sender } ∷ []),
    ),
    inr (refl, refl),
  )
]

-- The inbox keeps the envelope of the request's body.
pub record IsStored (parse : Text → Option Envelope) (r : Incoming) (s : Onion) (t : Tables)
    : Type 0 where
  pub envelope : Envelope
  pub parsed : parse r.body ≡ some envelope
  pub ours : envelope.mailbox_id ≡ s.device_id
  pub small : length envelope.ciphertext ≤ 524288
  pub kept : any (has_envelope envelope.envelope_id) t.inbox ≡ true
  pub stored : IsInserted envelope r.sender s.tables t

-- A chunk of a blob that is shared with the contact.
pub record IsGiven (contact : Opaque) (now : ℕ) (part : Part) (s : Onion) (t : Tables)
    : Type 0 where
  pub blob : Opaque
  pub index : ℕ
  pub shared : is_shared contact now blob s.tables ≡ true
  pub found : find (is_part blob index) s.tables.parts ≡ some part
  pub same : t ≡ s.tables

module _ (parse : Text → Option Envelope) (now : ℕ) where
  -- What a reply says of the tables, for a request of `peer`.
  abbrev pub Grants : Peer → Incoming → Onion → Reply → Tables → Type 0
  Grants peer r s (refused fault) t = t ≡ s.tables
  Grants peer r s accepted t = IsStored parse r s t
  Grants peer r s (served part) t = IsGiven peer.contact_id now part s t

  store_envelope-Grants :
      (peer : Peer) (r : Incoming) (o : Option Envelope) (n : ℕ) (s : Onion)
      → parse r.body ≡ o
      → Grants peer r s
          (store_envelope r o (record s { peer_envelopes = n })).0
          (store_envelope r o (record s { peer_envelopes = n })).1.tables
  unfolding store_envelope is_deliverable
  store_envelope-Grants peer r none n s p = refl
  store_envelope-Grants peer r (some e) n s p = elim (Bool-cases (e.mailbox_id == s.device_id)) [
    | inr ne ↦ rw ne refl
    | inl own ↦ elim (Bool-cases (ltb 524288 (length e.ciphertext))) [
      | inl large ↦ rw (own, large) refl
      | inr small ↦
          rw (own, small)
            (record {
              envelope = e;
              parsed = p;
              ours = ground arith;
              small = ground arith;
              kept = (insert_parcel-IsInserted e r.sender s.tables).0;
              stored = (insert_parcel-IsInserted e r.sender s.tables).1;
            })
    ]
  ]

  part_reply-Grants :
      (peer : Peer) (r : Incoming) (blob : Opaque) (index : ℕ) (s : Onion) (o : Option Part)
      → is_shared peer.contact_id now blob s.tables ≡ true
      → find (is_part blob index) s.tables.parts ≡ o
      → Grants peer r s (part_reply o) s.tables
  unfolding part_reply
  part_reply-Grants peer r blob index s none shared e = refl
  part_reply-Grants peer r blob index s (some part) shared e = record {
    blob = blob;
    index = index;
    shared = shared;
    found = e;
    same = refl;
  }

  serve-Grants :
      (peer : Peer) (r : Incoming) (m : Method) (t : Target) (s : Onion)
      → Grants peer r s (serve parse now peer r m t s).0 (serve parse now peer r m t s).1.tables
  unfolding serve
  serve-Grants peer r post envelopes s = store_envelope-Grants peer r (parse r.body) _ s refl
  serve-Grants peer r get (chunk blob index) s =
      elim (Bool-cases (is_shared peer.contact_id now blob s.tables)) [
        | inr ne ↦ rw ne refl
        | inl shared ↦ rw shared (part_reply-Grants peer r blob index s _ shared refl)
      ]
  serve-Grants peer r get envelopes s = refl
  serve-Grants peer r get (elsewhere path) s = refl
  serve-Grants peer r post (chunk blob index) s = refl
  serve-Grants peer r post (elsewhere path) s = refl
  serve-Grants peer r other envelopes s = refl
  serve-Grants peer r other (chunk blob index) s = refl
  serve-Grants peer r other (elsewhere path) s = refl

-- What a reply of the service says of the request and of the tables after it.
abbrev pub Admits :
    (Opaque → Signed → Opaque → Bool)
    → (Text → Option Envelope)
    → ℕ
    → ℕ
    → Incoming
    → Onion
    → Reply
    → Tables
    → Type 0
Admits verify parse arrived now r s (refused fault) t = t ≡ s.tables
Admits verify parse arrived now r s accepted t =
    (peer : Peer) × IsAuthorized verify arrived r s peer × IsStored parse r s t
Admits verify parse arrived now r s (served part) t =
    (peer : Peer) × IsAuthorized verify arrived r s peer × IsGiven peer.contact_id now part s t

module _ (verify : Opaque → Signed → Opaque → Bool) (parse : Text → Option Envelope)
    (arrived now : ℕ) (r : Incoming) where
  Grants-Admits :
      (peer : Peer) (s : Onion) (reply : Reply) (t : Tables)
      → IsAuthorized verify arrived r s peer
      → Grants parse now peer r s reply t
      → Admits verify parse arrived now r s reply t
  Grants-Admits peer s (refused fault) t a g = g
  Grants-Admits peer s accepted t a g = (peer, a, g)
  Grants-Admits peer s (served part) t a g = (peer, a, g)

  check_peer-Admits :
      (time : ℕ) (o : Option Peer) (s : Onion)
      → r.time ≡ some time
      → distance arrived time ≤ 120000
      → is_nonce r.nonce ≡ true
      → s.stopped ≡ false
      → find (is_device r.sender) s.tables.peers ≡ o
      → Admits verify parse arrived now r s
          (check_peer verify parse now r time o s).0
          (check_peer verify parse now r time o s).1.tables
  unfolding check_peer
  check_peer-Admits time none s d t n u e = refl
  check_peer-Admits time (some peer) s d t n u e =
      elim (Bool-cases (verify peer.auth_key (signing_bytes r time) r.signature)) [
        | inr forged ↦ rw forged refl
        | inl good ↦ elim (Bool-cases (any (is_changed peer.contact_id) s.tables.contacts)) [
          | inl changed ↦ rw (good, changed) refl
          | inr same ↦
              rw (good, same)
                (Grants-Admits peer s _ _
                  (record {
                    time = time;
                    dated = d;
                    timely = t;
                    once = n;
                    running = u;
                    listed = e;
                    signed = good;
                    unchanged = same;
                  })
                  (serve-Grants parse now peer r r.method r.target s))
        ]
      ]

  check_time-Admits :
      (o : Option ℕ) (s : Onion)
      → r.time ≡ o
      → Admits verify parse arrived now r s
          (check_time verify parse arrived now r o s).0
          (check_time verify parse arrived now r o s).1.tables
  unfolding check_time
  check_time-Admits none s d = refl
  check_time-Admits (some time) s d = elim (Bool-cases (is_open arrived time r s)) [
    | inr shut ↦ rw shut refl
    | inl o ↦
        let u : s.stopped ≡ false = unfold is_open in ground arith in
        let t : distance arrived time ≤ 120000 = unfold is_open is_timely in ground arith in
        let n : is_nonce r.nonce ≡ true = unfold is_open in ground arith in
        rw o (check_peer-Admits time (find (is_device r.sender) s.tables.peers) s d t n u refl)
  ]

  noted-Admits :
      (s : Onion) (o : Reply × Onion)
      → Admits verify parse arrived now r s o.0 o.1.tables
      → Admits verify parse arrived now r s (noted o).0 (noted o).1.tables
  unfolding noted
  noted-Admits s (refused fault, t) a = a
  noted-Admits s (accepted, t) a = a
  noted-Admits s (served part, t) a = a

  -- A request that the onion service refuses changes no table. One that it answers came at most two
  -- minutes from its time, with a well-formed nonce, from a device that is pinned, signed with the key
  -- pinned for it over exactly its method, path and body, and whose contact's identity did not change.
  -- An accepted envelope is for this device and at most 512 KiB. If no row of the inbox had its id, it
  -- is added as the last row, under the sender's id; otherwise no table changes. A chunk that is served
  -- is of a blob that is shared with that contact, and changes no table.
  pub receive-Admits :
      (s : Onion)
      → Admits verify parse arrived now r s
          (receive verify parse arrived now r s).0
          (receive verify parse arrived now r s).1.tables
  unfolding receive
  receive-Admits s = elim (Bool-cases (ltb 786432 (length r.body))) [
    | inl large ↦ rw large (noted-Admits s (refused body_too_large, s) refl)
    | inr small ↦ rw small (noted-Admits s _ (check_time-Admits r.time s refl))
  ]
