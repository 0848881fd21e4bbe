-- ===== src/Relay/Db.antt =====
-- The relay's database, apps/relay-server/src/schema.sql and db.ts: one list of rows for each table
-- that the handlers read or write. A UUID is the number that its text denotes, so that the order of
-- the texts and of the numbers agree; a token, a name, a hash is an opaque number, compared only for
-- equality; bytes whose length matters are texts. Times are milliseconds.
use crypto_pigeon.Prelude.{ℕ, Bool, Option, List, [], Text}

abbrev pub Uuid : Type 0
Uuid = ℕ

abbrev pub Opaque : Type 0
Opaque = ℕ

pub record User : Type 0 where
  pub user_id : Uuid
  pub username : Opaque
  pub public_uid : Opaque
  pub revoked : Bool

pub record Device : Type 0 where
  pub device_id : Uuid
  pub user_id : Uuid
  pub identity_public_key : Opaque
  pub auth_public_key : Text
  pub registration_id : ℕ
  pub signal_device_id : ℕ
  pub revoked : Bool

pub data AccessStatus : Type 0 where
  pending approved rejected activated : AccessStatus

pub record AccessRequest : Type 0 where
  pub request_id : Uuid
  pub username : Opaque
  pub status : AccessStatus
  pub activation_code_hash : Option Opaque
  pub attempt_count : ℕ
  pub activation_expires_at : Option ℕ

pub data RequestStatus : Type 0 where
  pending accepted rejected : RequestStatus

pub record ConnectionRequest : Type 0 where
  pub request_id : Uuid
  pub requester : Uuid
  pub recipient : Uuid
  pub status : RequestStatus
  pub created_at : ℕ
  pub expires_at : ℕ

pub record Permission : Type 0 where
  pub user_one : Uuid
  pub user_two : Uuid
  pub revoked : Bool

pub record SignedPrekey : Type 0 where
  pub device_id : Uuid
  pub signal_prekey_id : ℕ
  pub public_key : Opaque
  pub signature : Opaque
  pub uploaded_at : ℕ

pub record OneTimePrekey : Type 0 where
  pub device_id : Uuid
  pub signal_prekey_id : ℕ
  pub public_key : Opaque
  pub consumed : Bool

pub data PrekeyType : Type 0 where
  one_time last_resort : PrekeyType

pub record PqPrekey : Type 0 where
  pub device_id : Uuid
  pub signal_prekey_id : ℕ
  pub public_key : Opaque
  pub signature : Opaque
  pub prekey_type : PrekeyType
  pub consumed : Bool

pub record Message : Type 0 where
  pub id : Text
  pub sender_id : Uuid
  pub recipient_id : Uuid
  pub encrypted_payload : Text
  pub timestamp : ℕ
  pub delivered : Bool
  pub expires_at : ℕ

pub record Session : Type 0 where
  pub token : Opaque
  pub device_id : Uuid
  pub expires_at : ℕ

pub record VaultLock : Type 0 where
  pub device_id : Uuid
  pub instance_hash : Opaque

pub record Blob : Type 0 where
  pub blob_id : Uuid
  pub owner_device_id : Uuid
  pub chunk_count : ℕ
  pub total_size : ℕ

pub record Chunk : Type 0 where
  pub blob_id : Uuid
  pub chunk_index : ℕ
  pub nonce : Text
  pub ciphertext : Text

-- The rows of `device_key_versions` with the key type 'signed_prekey'.
pub record KeyVersion : Type 0 where
  pub device_id : Uuid
  pub version : ℕ
  pub fingerprint : Opaque

pub record Backup : Type 0 where
  pub lookup_token : Opaque
  pub version : ℕ
  pub nonce : Text
  pub ciphertext : Text
  pub fragment7_shard : Text
  pub writer_public_key : Text
  pub signature : Opaque
  pub signed_at : Opaque
  pub device_id : Option Uuid
  pub instance_hash : Option Opaque
  pub device_signature : Option Opaque
  pub claim : Bool
  pub ciphertext_sha256 : Option Opaque

pub record Db : Type 0 where
  pub users : List User
  pub devices : List Device
  pub access_requests : List AccessRequest
  pub requests : List ConnectionRequest
  pub permissions : List Permission
  pub signed_prekeys : List SignedPrekey
  pub one_time_prekeys : List OneTimePrekey
  pub pq_prekeys : List PqPrekey
  pub messages : List Message
  pub sessions : List Session
  pub locks : List VaultLock
  pub blobs : List Blob
  pub chunks : List Chunk
  pub backups : List Backup
  pub key_versions : List KeyVersion

abbrev pub empty : Db
empty = record {
  users = [];
  devices = [];
  access_requests = [];
  requests = [];
  permissions = [];
  signed_prekeys = [];
  one_time_prekeys = [];
  pq_prekeys = [];
  messages = [];
  sessions = [];
  locks = [];
  blobs = [];
  chunks = [];
  backups = [];
  key_versions = [];
}
