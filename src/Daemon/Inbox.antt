-- ===== src/Daemon/Inbox.antt =====
-- apps/local-daemon/src/messages.ts, syncMessages, and consumer.ts, queueControl: receiving.
-- Libsignal's decryption and encryption, the session that it makes of a bundle, and the relay's
-- answers to a request for a bundle are arguments. The marks of who is typing, which the code keeps in
-- memory, are rolled back with the tables here.
pub mod Durability
pub mod Once
use crypto_pigeon.Prelude.{
  ℕ, ◌+◌, ◌*◌, Bool, true, false, not, ◌&&◌, ◌||◌, Option, none, some, List, [], ◌∷◌, ◌++◌, ◌>>=◌,
  contains, find, any, update, delete, ◌==◌, ltb, if◌then◌else◌,
}
use crypto_pigeon.Relay.Db.{Opaque}
use crypto_pigeon.Daemon.Local.{
  Contact, Remote, Conversation, Status, queued, sent, delivered, read, received, Message, Control,
  Side, Local,
}

-- An envelope of the relay; `well_formed` stands for its version, id and ciphertext being there.
pub record Envelope : Type 0 where
  pub well_formed : Bool
  pub envelope_id : Opaque
  pub sender_id : Opaque
  pub ciphertext : Opaque

pub data Manifest : Type 0 where
  no_attachment malformed : Manifest
  attachment : Opaque → Manifest

pub data Kind : Type 0 where
  text :
      (text : Opaque) (message_id : Option Opaque) (disappearing_seconds : ℕ) (manifest : Manifest)
      → Kind
  typing : (expires_at : ℕ) → Kind
  delivered_to read_up_to : (up_to_message_id : Opaque) → Kind
  other : Kind

-- A decrypted payload; the profile is one that passes the checks of its lengths.
pub record Payload : Type 0 where
  pub profile : Option Opaque
  pub kind : Kind

-- The random ids that one envelope may use.
pub record Draw : Type 0 where
  pub message_id : Opaque
  pub conversation_id : Opaque
  pub control_id : Opaque

-- A bundle's sender with the contact that establishing its session pins, or what fails.
pub data Bundle : Type 0 where
  not_ok throws : Bundle
  bundle : (remote : Remote) (side : Side) → Bundle

-- What a synchronisation has to acknowledge, and how many envelopes it has received.
pub record Tally : Type 0 where
  pub finished : Bool
  pub acks : List Opaque
  pub received_count : ℕ

unfoldable pub find_or_create : Opaque → Opaque → Side → Opaque × Side
find_or_create id contact s = elim (find (λ c. c.contact_id == contact) s.conversations) [
  | some c ↦ (c.conversation_id, s)
  | none ↦ (
    id,
    record s {
      conversations =
          s.conversations
          ++ record { conversation_id = id; contact_id = contact; disappearing_seconds = none }
            ∷ [];
    },
  )
]

unfoldable pub is_blocked : Opaque → List Contact → Bool
is_blocked contact contacts = any (λ c. c.contact_id == contact && c.identity_changed) contacts

unfoldable pub set_profile : Opaque → Option Opaque → Side → Side
set_profile contact none s = s
set_profile contact (some p) s = record s {
  profiles = (contact, p) ∷ delete (λ e. e.0 == contact) s.profiles;
}

unfoldable pub set_typing : ℕ → Opaque → ℕ → Side → Side
set_typing now conversation expires_at s =
    if ltb now expires_at && ltb expires_at (now + 10000)
    then record s {
      typing = (conversation, now + 5000) ∷ delete (λ e. e.0 == conversation) s.typing;
    }
    else s

unfoldable pub is_outgoing : Opaque → Opaque → Message → Bool
is_outgoing conversation id m = m.message_id == id && m.conversation_id == conversation && m.is_sent

unfoldable pub is_undelivered : Status → Bool
is_undelivered queued = true
is_undelivered sent = true
is_undelivered delivered = false
is_undelivered read = false
is_undelivered received = false

abbrev pub with_status : Status → Message → Message
with_status s m = record m { status = s }

unfoldable pub mark_delivered : Opaque → Opaque → List Message → List Message
mark_delivered conversation id rows =
    update (λ m. is_outgoing conversation id m && is_undelivered m.status) (with_status delivered)
      rows

-- The rows up to the first that passes the test, which has the lowest rowid.
unfoldable pub mark_prefix : Opaque → Opaque → List Message → List Message
mark_prefix conversation id [] = []
mark_prefix conversation id (m ∷ ms) =
    (if m.conversation_id == conversation && m.is_sent then with_status read m else m)
    ∷ (if is_outgoing conversation id m then ms else mark_prefix conversation id ms)

unfoldable pub mark_read : Opaque → Opaque → List Message → List Message
mark_read conversation id rows =
    if any (is_outgoing conversation id) rows then mark_prefix conversation id rows else rows

-- The times after which a message may disappear: an hour, a day, a week.
unfoldable pub expiry : ℕ → ℕ → Option ℕ
expiry now seconds =
    if seconds == 3600 || (seconds == 86400 || seconds == 604800)
    then some (now + seconds * 1000)
    else none

unfoldable pub add_attachment : Manifest → Side → Option Side
add_attachment no_attachment s = some s
add_attachment malformed s = none
add_attachment (attachment id) s =
    if contains id s.attachments
    then none
    else some (record s { attachments = s.attachments ++ id ∷ [] })

unfoldable pub mark_seen : Opaque → Local → Local
mark_seen id l = record l { seen = id ∷ l.seen }

module _ (decrypt : Remote → Opaque → Opaque → Option (Payload × Opaque))
    (encrypt : Remote → Opaque → Opaque → Option (Opaque × Opaque)) (fetch : Opaque → Side → Bundle)
    (now : ℕ) where
  -- queueControl with a 'delivered' receipt: it throws where the peer is unknown or blocked.
  unfoldable pub queue_control : Opaque → Opaque → Opaque → Side → Option Side
  queue_control control_id contact up_to s = if is_blocked contact s.contacts then none else (do
    peer ← find (λ r. r.contact_id == contact) s.remotes
    (ciphertext, ratchets) ← encrypt peer up_to s.ratchets
    some (record s {
      ratchets = ratchets;
      controls =
          s.controls
          ++ record {
            envelope_id = control_id;
            contact_id = contact;
            mailbox_id = peer.device_id;
            ciphertext = ciphertext;
            created_at = now;
            expires_at = none;
          }
            ∷ [];
    }))

  unfoldable pub link : Draw → Opaque → Option Opaque → Side → Option Side
  link draw contact none s = some s
  link draw contact (some id) s =
      queue_control draw.control_id contact id
        (record s { links = s.links ++ (draw.message_id, id) ∷ [] })

  unfoldable pub end_typing : Opaque → Side → Side
  end_typing conversation s = record s { typing = delete (λ e. e.0 == conversation) s.typing }

  -- The tables beside the messages, for a text.
  unfoldable pub receive_text :
      Draw → Opaque → Opaque → Option Opaque → Manifest → Side → Option Side
  receive_text draw contact conversation id manifest s = do
    linked ← link draw contact id s
    add_attachment manifest (end_typing conversation linked)

  unfoldable pub new_message : Envelope → Draw → Opaque → Opaque → ℕ → Message
  new_message e draw conversation words seconds = record {
    message_id = draw.message_id;
    conversation_id = conversation;
    is_sent = false;
    plaintext = words;
    envelope = some e.envelope_id;
    status = received;
    disappear_at = expiry now seconds;
  }

  unfoldable pub store_text : Envelope → Message → Option Side → Local → Option Local
  store_text e m none l = none
  store_text e m (some s) l =
      some (mark_seen e.envelope_id (record l { messages = l.messages ++ m ∷ []; side = s }))

  -- The transaction after the decryption, by the kind of the payload; `none` is a rollback.
  unfoldable pub process : Envelope → Draw → Opaque → Opaque → Kind → Side → Local → Option Local
  process e draw contact conversation (text words id seconds manifest) s l =
      store_text e (new_message e draw conversation words seconds)
        (receive_text draw contact conversation id manifest s) l
  process e draw contact conversation (typing expires_at) s l =
      some (mark_seen e.envelope_id (record l { side = set_typing now conversation expires_at s }))
  process e draw contact conversation (delivered_to id) s l = some (
      mark_seen e.envelope_id
        (record l { messages = mark_delivered conversation id l.messages; side = s }))
  process e draw contact conversation (read_up_to id) s l = some (
      mark_seen e.envelope_id
        (record l { messages = mark_read conversation id l.messages; side = s }))
  process e draw contact conversation other s l =
      some (mark_seen e.envelope_id (record l { side = s }))

  unfoldable pub decrypted :
      Envelope → Draw → Opaque → Option (Payload × Opaque) → Local → Option Local
  decrypted e draw contact none l = none
  decrypted e draw contact (some (p, ratchets)) l =
      let (conversation, s) =
        find_or_create draw.conversation_id contact (record l.side { ratchets = ratchets }) in
      process e draw contact conversation p.kind (set_profile contact p.profile s) l

  -- What one envelope leads to: whether it is acknowledged, whether it counts as received, the tables.
  unfoldable pub concluded : Option Local → Local → Bool × Bool × Local
  concluded none l = (false, false, l)
  concluded (some l') l = (true, true, l')

  unfoldable pub from_contact : Envelope → Draw → Remote → Local → Bool × Bool × Local
  from_contact e draw r l =
      if is_blocked r.contact_id l.side.contacts
      then (false, false, l)
      else concluded (decrypted e draw r.contact_id (decrypt r e.ciphertext l.side.ratchets) l) l

  -- `none` is an exception, which ends the whole synchronisation.
  unfoldable pub from_sender :
      Envelope → Draw → Option Remote → Bundle → Local → Option (Bool × Bool × Local)
  from_sender e draw (some r) b l = some (from_contact e draw r l)
  from_sender e draw none not_ok l = some (false, false, l)
  from_sender e draw none throws l = none
  from_sender e draw none (bundle r s) l = some (from_contact e draw r (record l { side = s }))

  unfoldable pub receive : Envelope → Draw → Local → Option (Bool × Bool × Local)
  receive e draw l =
      if not e.well_formed
      then some (false, false, l)
      else if contains e.envelope_id l.seen
      then some (true, false, l)
      else from_sender e draw (find (λ r. r.device_id == e.sender_id) l.side.remotes)
          (fetch e.sender_id l.side) l

  -- The loop of syncMessages; `finished` is false where an exception has ended it.
  unfoldable pub next_envelope :
      Envelope → Option (Bool × Bool × Local) → Tally → Local → Tally × Local
  next_envelope e none t l = (record t { finished = false }, l)
  next_envelope e (some (ack, got, l')) t l = (
    record t {
      acks = if ack then t.acks ++ e.envelope_id ∷ [] else t.acks;
      received_count = if got then t.received_count + 1 else t.received_count;
    },
    l',
  )

  unfoldable pub sync : List (Envelope × Draw) → Tally → Local → Tally × Local
  sync [] t l = (t, l)
  sync ((e, draw) ∷ es) t l =
      let (t', l') = next_envelope e (receive e draw l) t l in
      let rest = sync es t' l' in if t'.finished then rest else (t', l')
