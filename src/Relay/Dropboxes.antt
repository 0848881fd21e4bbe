-- ===== src/Relay/Dropboxes.antt =====
-- apps/relay-server/src/blind-dropbox.ts: the acknowledgement that two contacts have exchanged their
-- keys, and envelopes under a box id that names no recipient. Box ids, hashes and ciphertexts are
-- opaque; rows stand in the order of their insertion, which `ORDER BY created_at` follows.
pub mod Exchange
pub mod Boxes
use crypto_pigeon.Prelude.{
  ℕ, ◌+◌, Bool, true, false, not, ◌&&◌, ◌||◌, Option, none, some, List, [], ◌∷◌, ◌++◌, map, find,
  any, select, delete, limit, contains, ◌==◌, ltb, if◌then◌else◌,
}
use crypto_pigeon.Relay.Db.{
  Uuid, Opaque, Device, RequestStatus, pending, accepted, rejected, ConnectionRequest, Db,
}
use crypto_pigeon.Relay.Sockets.{Net, new_envelope, notify_client}
use crypto_pigeon.Relay.Conversations.{owner_of, permitted}

-- A row of `contact_exchange_acks`.
pub record Ack : Type 0 where
  pub user_id : Uuid
  pub peer_id : Uuid

-- A row of `blind_messages`.
pub record Blind : Type 0 where
  pub id : Uuid
  pub dropbox_id : Opaque
  pub ciphertext : Opaque
  pub sender_hash : Opaque
  pub expires_at : ℕ

pub data ExchangeReply : Type 0 where
  contact_not_found contact_not_approved : ExchangeReply
  exchanged : (purged : Bool) → ExchangeReply

-- The user of an unrevoked device.
unfoldable pub user_of : Uuid → Db → Option Uuid
user_of device db = owner_of (find (λ d. d.device_id == device && not d.revoked) db.devices)

unfoldable pub is_ack : Uuid → Uuid → Ack → Bool
is_ack user peer a = a.user_id == user && a.peer_id == peer

-- `INSERT ... ON CONFLICT DO NOTHING`
unfoldable pub insert_ack : Uuid → Uuid → List Ack → List Ack
unfolding is_ack
insert_ack user peer acks =
    if any (is_ack user peer) acks
    then acks
    else acks ++ record { user_id = user; peer_id = peer } ∷ []

unfoldable pub is_accepted : RequestStatus → Bool
is_accepted accepted = true
is_accepted pending = false
is_accepted rejected = false

-- An accepted request between two users, whoever asked.
unfoldable pub is_settled : Uuid → Uuid → ConnectionRequest → Bool
unfolding is_accepted
is_settled own peer r =
    is_accepted r.status
    && (r.requester == own && r.recipient == peer || r.requester == peer && r.recipient == own)

unfoldable pub is_between : Uuid → Uuid → Ack → Bool
unfolding is_ack
is_between own peer a = is_ack own peer a || is_ack peer own a

-- From the INSERT to the COMMIT; `acks` has the row that was inserted.
unfoldable pub settle : Uuid → Uuid → List Ack → Db → ExchangeReply × List Ack × Db
unfolding is_settled is_between is_ack
settle own peer acks db =
    if any (is_ack peer own) acks
    then (
      exchanged true,
      delete (is_between own peer) acks,
      record db { requests = delete (is_settled own peer) db.requests },
    )
    else (exchanged false, acks, db)

unfoldable pub exchange_between :
    Option Uuid → Option Uuid → List Ack → Db → ExchangeReply × List Ack × Db
unfolding settle insert_ack
exchange_between none peer acks db = (contact_not_found, acks, db)
exchange_between (some own) none acks db = (contact_not_found, acks, db)
exchange_between (some own) (some peer) acks db =
    if not (permitted own peer db.permissions)
    then (contact_not_approved, acks, db)
    else settle own peer (insert_ack own peer acks) db

-- POST /api/contacts/exchange-ack
unfoldable pub exchange_ack : Uuid → Uuid → List Ack → Db → ExchangeReply × List Ack × Db
unfolding exchange_between user_of
exchange_ack device peer_device acks db =
    exchange_between (user_of device db) (user_of peer_device db) acks db

-- `notifyBlindActivity`: every connected client is poked.
unfoldable pub notify_all : List Uuid → Net → Net
notify_all [] net = net
notify_all (d ∷ ds) net = notify_all ds (notify_client d new_envelope (some 262144) net).1

unfoldable pub notify_blind_activity : Net → Net
unfolding notify_all
notify_blind_activity net = notify_all (map (λ c. c.0) net.clients) net

pub record BlindEnvelope : Type 0 where
  pub envelope_id : Uuid
  pub dropbox_id : Opaque
  pub ciphertext : Opaque

abbrev pub thirty_days : ℕ
thirty_days = 2592000000

unfoldable pub blind_row : ℕ → Opaque → BlindEnvelope → Blind
blind_row now sender_hash e = record {
  id = e.envelope_id;
  dropbox_id = e.dropbox_id;
  ciphertext = e.ciphertext;
  sender_hash = sender_hash;
  expires_at = now + thirty_days;
}

unfoldable pub insert_blind : Blind → List Blind → List Blind
insert_blind row rows = if any (λ b. b.id == row.id) rows then rows else rows ++ row ∷ []

-- POST /api/blind/send; `salt` is the random prefix of the hash of the sender.
unfoldable pub blind_send :
    (Opaque → Uuid → Opaque)
    → ℕ
    → Opaque
    → Uuid
    → BlindEnvelope
    → List Blind
    → Net
    → List Blind × Net
unfolding blind_row insert_blind notify_blind_activity
blind_send sha256 now salt device e rows net =
    (insert_blind (blind_row now (sha256 salt device) e) rows, notify_blind_activity net)

unfoldable pub is_waiting : ℕ → List Opaque → Blind → Bool
is_waiting now boxes b = contains b.dropbox_id boxes && ltb now b.expires_at

unfoldable pub envelope_of : Blind → BlindEnvelope
envelope_of b = record { envelope_id = b.id; dropbox_id = b.dropbox_id; ciphertext = b.ciphertext }

-- POST /api/blind/fetch
unfoldable pub blind_fetch : ℕ → List Opaque → List Blind → List BlindEnvelope
unfolding is_waiting envelope_of
blind_fetch now boxes rows = map envelope_of (limit 256 (select (is_waiting now boxes) rows))

unfoldable pub is_named : List Uuid → List Opaque → Blind → Bool
is_named ids boxes b = contains b.id ids && contains b.dropbox_id boxes

-- POST /api/blind/ack
unfoldable pub blind_ack : List Uuid → List Opaque → List Blind → List Blind
unfolding is_named
blind_ack ids boxes rows = delete (is_named ids boxes) rows
