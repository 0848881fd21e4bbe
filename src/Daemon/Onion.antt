-- ===== src/Daemon/Onion.antt =====
-- apps/local-daemon/src/tor-transport.ts: what the daemon's onion service answers a peer. The method,
-- the path and the headers are parsed, ids are opaque numbers, the body is a text. The check of a
-- signature and the parser of the envelope schema are arguments.
pub mod Admission
pub mod Mailbox
use crypto_pigeon.Prelude.{
  ℕ, suc, ◌+◌, ◌-◌, Bool, true, false, not, ◌&&◌, ◌||◌, Option, none, some, List, [], ◌∷◌, ◌++◌,
  Text, length, find, any, ◌==◌, leb, ltb, if◌then◌else◌,
}
use crypto_pigeon.Relay.Db.{Opaque}
use crypto_pigeon.Daemon.Local.{Contact, Conversation, Message}
use crypto_pigeon.Daemon.Jobs.Expiry.{Attachment}

-- A row of `peer_onions`.
pub record Peer : Type 0 where
  pub device_id : Opaque
  pub contact_id : Opaque
  pub onion : Opaque
  pub auth_key : Opaque

-- An envelope that the schema accepts; `options` are its optional fields.
pub record Envelope : Type 0 where
  pub envelope_id : Opaque
  pub mailbox_id : Opaque
  pub ciphertext : Text
  pub options : Opaque

-- A row of `tor_inbox`.
pub record Parcel : Type 0 where
  pub envelope : Envelope
  pub sender_id : Opaque

-- A row of `tor_chunks`.
pub record Part : Type 0 where
  pub blob_id : Opaque
  pub chunk_index : ℕ
  pub nonce : Text
  pub ciphertext : Text

pub data Method : Type 0 where
  get post other : Method

pub data Target : Type 0 where
  envelopes : Target
  chunk : (blob : Opaque) → (index : ℕ) → Target
  elsewhere : (path : Opaque) → Target

-- A request; `time` is none if the header is not a safe integer or is negative.
pub record Incoming : Type 0 where
  pub method : Method
  pub target : Target
  pub body : Text
  pub sender : Opaque
  pub time : Option ℕ
  pub nonce : Text
  pub signature : Opaque

-- The array whose JSON text is signed.
pub record Signed : Type 0 where
  pub sender : Opaque
  pub time : ℕ
  pub nonce : Text
  pub method : Method
  pub target : Target
  pub body : Text

-- p2pSigningBytes
unfoldable pub signing_bytes : Incoming → ℕ → Signed
signing_bytes r time = record {
  sender = r.sender;
  time = time;
  nonce = r.nonce;
  method = r.method;
  target = r.target;
  body = r.body;
}

pub data Fault : Type 0 where
  body_too_large unauthorized identity_changed request_failed invalid_envelope chunk_missing
        not_found :
      Fault

pub data Reply : Type 0 where
  refused : (fault : Fault) → Reply
  accepted : Reply
  served : (part : Part) → Reply

-- The tables that `receive` reads, and the one it writes; `links` pairs attachments and blobs.
pub record Tables : Type 0 where
  pub peers : List Peer
  pub contacts : List Contact
  pub conversations : List Conversation
  pub messages : List Message
  pub attachments : List Attachment
  pub links : List (Opaque × Opaque)
  pub parts : List Part
  pub inbox : List Parcel

pub record Onion : Type 0 where
  pub stopped : Bool
  pub device_id : Opaque
  pub peer_envelopes : ℕ
  pub peer_chunks : ℕ
  pub peer_error : Option Fault
  pub tables : Tables

-- /^[a-f0-9]{32}$/
unfoldable pub all_hex : Text → Bool
all_hex [] = true
all_hex (c ∷ s) = (leb 48 c && leb c 57 || leb 97 c && leb c 102) && all_hex s

unfoldable pub is_nonce : Text → Bool
unfolding all_hex
is_nonce n = length n == 32 && all_hex n

abbrev pub distance : ℕ → ℕ → ℕ
distance a b = (a - b) + (b - a)

unfoldable pub is_timely : ℕ → Option ℕ → Bool
is_timely arrived none = false
is_timely arrived (some time) = leb (distance arrived time) 120000

unfoldable pub is_device : Opaque → Peer → Bool
is_device id p = p.device_id == id

unfoldable pub is_changed : Opaque → Contact → Bool
is_changed id c = c.contact_id == id && c.identity_changed

-- INSERT OR IGNORE INTO tor_inbox
unfoldable pub insert_parcel : Parcel → List Parcel → List Parcel
insert_parcel p inbox =
    if any (λ q. q.envelope.envelope_id == p.envelope.envelope_id) inbox
    then inbox
    else inbox ++ p ∷ []

unfoldable pub is_deliverable : Onion → Envelope → Bool
is_deliverable s e = e.mailbox_id == s.device_id && not (ltb 524288 (length e.ciphertext))

unfoldable pub store_envelope : Incoming → Option Envelope → Onion → Reply × Onion
unfolding is_deliverable insert_parcel
store_envelope r none s = (refused request_failed, s)
store_envelope r (some e) s =
    if is_deliverable s e
    then (
      accepted,
      record s {
        tables = record s.tables {
          inbox = insert_parcel (record { envelope = e; sender_id = r.sender }) s.tables.inbox;
        };
      },
    )
    else (refused invalid_envelope, s)

unfoldable pub is_live : ℕ → Option ℕ → Bool
is_live now none = true
is_live now (some at) = ltb now at

-- The joined rows by which the contact may have the chunks of `blob`.
unfoldable pub is_shared : Opaque → ℕ → Opaque → Tables → Bool
unfolding is_live
is_shared contact now blob t =
    any
      (λ a.
        any (λ l. l.0 == a.attachment_id && l.1 == blob) t.links
        && any
            (λ m.
              m.message_id == a.message_id
              && m.is_sent
              && is_live now m.disappear_at
              && any (λ c. c.conversation_id == m.conversation_id && c.contact_id == contact)
                  t.conversations)
            t.messages)
      t.attachments

unfoldable pub part_reply : Option Part → Reply
part_reply none = refused chunk_missing
part_reply (some p) = served p

unfoldable pub is_part : Opaque → ℕ → Part → Bool
is_part blob index p = p.blob_id == blob && p.chunk_index == index

unfoldable pub serve :
    (Text → Option Envelope) → ℕ → Peer → Incoming → Method → Target → Onion → Reply × Onion
unfolding store_envelope is_shared part_reply is_part
serve parse now peer r post envelopes s =
    store_envelope r (parse r.body) (record s { peer_envelopes = suc s.peer_envelopes })
serve parse now peer r get (chunk blob index) s =
    let s' = record s { peer_chunks = suc s.peer_chunks } in
    if is_shared peer.contact_id now blob s.tables
    then (part_reply (find (is_part blob index) s.tables.parts), s')
    else (refused unauthorized, s')
serve parse now peer r get envelopes s = (refused not_found, s)
serve parse now peer r get (elsewhere path) s = (refused not_found, s)
serve parse now peer r post (chunk blob index) s = (refused not_found, s)
serve parse now peer r post (elsewhere path) s = (refused not_found, s)
serve parse now peer r other target s = (refused not_found, s)

unfoldable pub check_peer :
    (Opaque → Signed → Opaque → Bool)
    → (Text → Option Envelope)
    → ℕ
    → Incoming
    → ℕ
    → Option Peer
    → Onion
    → Reply × Onion
unfolding serve is_changed signing_bytes
check_peer verify parse now r time none s = (refused unauthorized, s)
check_peer verify parse now r time (some peer) s =
    if not (verify peer.auth_key (signing_bytes r time) r.signature)
    then (refused unauthorized, s)
    else if any (is_changed peer.contact_id) s.tables.contacts
    then (refused identity_changed, s)
    else serve parse now peer r r.method r.target s

-- The first condition of `receive`, as what it lets pass.
unfoldable pub is_open : ℕ → ℕ → Incoming → Onion → Bool
unfolding is_timely is_nonce
is_open arrived time r s = not s.stopped && is_timely arrived (some time) && is_nonce r.nonce

unfoldable pub check_time :
    (Opaque → Signed → Opaque → Bool)
    → (Text → Option Envelope)
    → ℕ
    → ℕ
    → Incoming
    → Option ℕ
    → Onion
    → Reply × Onion
unfolding check_peer is_open is_device
check_time verify parse arrived now r none s = (refused unauthorized, s)
check_time verify parse arrived now r (some time) s =
    if not (is_open arrived time r s)
    then (refused unauthorized, s)
    else check_peer verify parse now r time (find (is_device r.sender) s.tables.peers) s

-- The `catch` keeps the reason.
unfoldable pub noted : Reply × Onion → Reply × Onion
noted (refused fault, s) = (refused fault, record s { peer_error = some fault })
noted (accepted, s) = (accepted, s)
noted (served part, s) = (served part, s)

unfoldable pub receive :
    (Opaque → Signed → Opaque → Bool)
    → (Text → Option Envelope)
    → ℕ
    → ℕ
    → Incoming
    → Onion
    → Reply × Onion
unfolding check_time noted
receive verify parse arrived now r s =
    if ltb 786432 (length r.body)
    then noted (refused body_too_large, s)
    else noted (check_time verify parse arrived now r r.time s)
