-- ===== src/Daemon/Local.antt =====
-- The daemon's tables, apps/local-daemon/src/vault.ts, that sending and receiving read or write.
-- An id, a text, a key is an opaque number; times are milliseconds.
use crypto_pigeon.Prelude.{ℕ, Bool, Option, List}
use crypto_pigeon.Relay.Db.{Opaque}

pub record Contact : Type 0 where
  pub contact_id : Opaque
  pub identity_changed : Bool

-- `remote_contacts`: where a contact is reached.
pub record Remote : Type 0 where
  pub contact_id : Opaque
  pub user_id : Opaque
  pub device_id : Opaque
  pub signal_device_id : ℕ

pub record Conversation : Type 0 where
  pub conversation_id : Opaque
  pub contact_id : Opaque
  pub disappearing_seconds : Option ℕ

pub data Status : Type 0 where
  queued sent delivered read received : Status

-- `is_sent` stands for the direction 'sent'; `envelope` is `remote_blob_id`.
pub record Message : Type 0 where
  pub message_id : Opaque
  pub conversation_id : Opaque
  pub is_sent : Bool
  pub plaintext : Opaque
  pub envelope : Option Opaque
  pub status : Status
  pub disappear_at : Option ℕ

pub record Outgoing : Type 0 where
  pub envelope_id : Opaque
  pub message_id : Opaque
  pub mailbox_id : Opaque
  pub ciphertext : Opaque
  pub created_at : ℕ

pub record Control : Type 0 where
  pub envelope_id : Opaque
  pub contact_id : Opaque
  pub mailbox_id : Opaque
  pub ciphertext : Opaque
  pub created_at : ℕ
  pub expires_at : Option ℕ

-- The tables beside messages, outbox and seen envelopes; `ratchets` is libsignal's state.
pub record Side : Type 0 where
  pub contacts : List Contact
  pub remotes : List Remote
  pub conversations : List Conversation
  pub controls : List Control
  pub links : List (Opaque × Opaque)
  pub attachments : List Opaque
  pub profiles : List (Opaque × Opaque)
  pub typing : List (Opaque × ℕ)
  pub ratchets : Opaque

pub record Local : Type 0 where
  pub messages : List Message
  pub outbox : List Outgoing
  pub seen : List Opaque
  pub side : Side
