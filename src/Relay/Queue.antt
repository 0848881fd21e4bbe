-- ===== src/Relay/Queue.antt =====
-- apps/relay-server/src/queue.ts: sending an envelope, fetching and acknowledging pending ones.
-- The base64 text of a ciphertext stands for its bytes.
pub mod Ids
pub mod Delivery
pub mod Pending
use crypto_pigeon.Prelude.{
  ℕ, ◌+◌, ◌*◌, min, Bool, true, false, not, ◌&&◌, ◌||◌, Option, none, some, List, [], ◌∷◌, ◌++◌,
  map, Text, text_eq, lower, contains, slice, remove, find, any, select, delete, ◌==◌, ltb, leb,
  if◌then◌else◌,
}
use crypto_pigeon.Prelude.Rows.Sort.{sort_by}
use crypto_pigeon.Relay.Db.{Uuid, Device, Message, Db}
use crypto_pigeon.Relay.Sockets.{Net, encrypted_envelope, new_envelope, notify_client}
use crypto_pigeon.Relay.Conversations.{owner_of, permitted}

abbrev pub dash : ℕ
dash = b'-'

unfoldable pub hex_to_uuid : Text → Text
hex_to_uuid hex =
    if contains dash hex
    then hex
    else lower (
        slice 0 8 hex
        ++ (dash ∷ slice 8 12 hex)
        ++ (dash ∷ slice 12 16 hex)
        ++ (dash ∷ slice 16 20 hex)
        ++ (dash ∷ slice 20 32 hex))

unfoldable pub uuid_to_hex : Text → Text
uuid_to_hex uuid = lower (remove dash uuid)

-- A UUID column holds the canonical text, in lower case.
unfoldable pub message_id : Text → Text
message_id id = lower (hex_to_uuid id)

pub record SendBody : Type 0 where
  pub envelope_id : Text
  pub mailbox_id : Uuid
  pub ciphertext : Text
  pub typing : Bool
  pub ttl_ms : Option ℕ
  pub created_at_ms : Option ℕ

pub data Reply : Type 0 where
  recipient_not_found conversation_not_approved queued : Reply
  ephemeral : (delivered : Bool) → Reply

abbrev pub get_or : Option ℕ → ℕ → ℕ
get_or none d = d
get_or (some n) d = n

-- `body.ttlMs ?? (TYPING ? 5000 : 30 days)`
unfoldable pub ttl_of : SendBody → ℕ
ttl_of body = get_or body.ttl_ms (if body.typing then 5000 else 2592000000)

unfoldable pub expiry_of : ℕ → SendBody → ℕ
unfolding ttl_of
expiry_of now body = min now (get_or body.created_at_ms now) + ttl_of body

unfoldable pub is_ephemeral : SendBody → Bool
unfolding ttl_of
is_ephemeral body = body.typing || leb (ttl_of body) 10000

-- `SELECT user_id FROM device_identity_keys WHERE device_id = $1`
unfoldable pub user_of : Uuid → List Device → Option Uuid
user_of device devices = owner_of (find (λ d. d.device_id == device) devices)

unfoldable pub row_of : ℕ → Uuid → SendBody → Message
unfolding message_id expiry_of
row_of now sender body = record {
  id = message_id body.envelope_id;
  sender_id = sender;
  recipient_id = body.mailbox_id;
  encrypted_payload = body.ciphertext;
  timestamp = now;
  delivered = false;
  expires_at = expiry_of now body;
}

-- `INSERT INTO messages ... ON CONFLICT (id) DO NOTHING`
unfoldable pub insert_message : Message → List Message → List Message
insert_message m messages =
    if any (λ row. text_eq row.id m.id) messages then messages else messages ++ m ∷ []

-- The branch for typing notices and short lifetimes: push to an open socket, store nothing.
unfoldable pub push_ephemeral : ℕ → Uuid → SendBody → Net → Reply × Net
push_ephemeral now sender body net =
    if ltb now (expiry_of now body)
    then (let (delivered, net') =
          notify_client body.mailbox_id
            (encrypted_envelope body.envelope_id sender body.mailbox_id body.ciphertext)
            (some (256 * 1024)) net in
        (ephemeral delivered, net'))
    else (ephemeral false, net)

-- The push of the envelope itself, then the wake-up for clients that do not read it.
unfoldable pub push_stored : Uuid → SendBody → Net → Net
push_stored sender body net =
    let pushed =
      notify_client body.mailbox_id
        (encrypted_envelope body.envelope_id sender body.mailbox_id body.ciphertext) none net in
    (notify_client body.mailbox_id new_envelope none pushed.1).1

unfoldable pub deliver : ℕ → Uuid → SendBody → Db × Net → Reply × Db × Net
deliver now sender body (db, net) =
    if is_ephemeral body
    then (let (reply, net') = push_ephemeral now sender body net in (reply, db, net'))
    else (
      queued,
      record db { messages = insert_message (row_of now sender body) db.messages },
      push_stored sender body net,
    )

unfoldable pub send_between :
    ℕ → Uuid → SendBody → Option Uuid → Option Uuid → Db × Net → Reply × Db × Net
send_between now sender body none u2 (db, net) = (recipient_not_found, db, net)
send_between now sender body (some u1) none (db, net) = (recipient_not_found, db, net)
send_between now sender body (some u1) (some u2) (db, net) =
    if permitted u1 u2 db.permissions
    then deliver now sender body (db, net)
    else (conversation_not_approved, db, net)

-- POST /api/messages/send
unfoldable pub send : ℕ → Uuid → SendBody → Db × Net → Reply × Db × Net
send now sender body (db, net) =
    send_between now sender body (user_of sender db.devices) (user_of body.mailbox_id db.devices)
      (db, net)

pub record Envelope : Type 0 where
  pub envelope_id : Text
  pub sender_id : Uuid
  pub mailbox_id : Uuid
  pub ciphertext : Text

unfoldable pub envelope_of : Message → Envelope
unfolding uuid_to_hex
envelope_of row = record {
  envelope_id = uuid_to_hex row.id;
  sender_id = row.sender_id;
  mailbox_id = row.recipient_id;
  ciphertext = row.encrypted_payload;
}

-- `DELETE FROM messages WHERE expires_at < now()`
unfoldable pub purge : ℕ → List Message → List Message
purge now messages = delete (λ m. ltb m.expires_at now) messages

unfoldable pub waits_for : Uuid → Message → Bool
waits_for device m = m.recipient_id == device && not m.delivered

unfoldable pub waiting : Uuid → List Message → List Message
unfolding waits_for
waiting device messages = sort_by (λ m. m.timestamp) (select (waits_for device) messages)

-- GET /api/messages/pending
unfoldable pub pending : ℕ → Uuid → Db → List Envelope × Db
pending now device db =
    let kept = purge now db.messages in
    (map envelope_of (waiting device kept), record db { messages = kept })

-- `id = ANY($1) AND recipient_id = $2`
unfoldable pub acknowledged : List Text → Uuid → Message → Bool
unfolding message_id
acknowledged ids device m = any (λ id. text_eq m.id (message_id id)) ids && m.recipient_id == device

-- POST /api/messages/ack
unfoldable pub acknowledge : List Text → Uuid → Db → Db
unfolding acknowledged
acknowledge ids device db = record db { messages = delete (acknowledged ids device) db.messages }
