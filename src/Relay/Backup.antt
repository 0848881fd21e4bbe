-- ===== src/Relay/Backup.antt =====
-- apps/relay-server/src/vault-backup.ts: one signed encrypted vault backup for each lookup token.
-- Signature checks and SHA-256 are parameters: they are node:crypto's.
pub mod Writes
pub mod Effects
pub mod Moves
use crypto_pigeon.Prelude.{
  ℕ, ◌+◌, ◌*◌, Bool, true, false, not, ◌&&◌, ◌||◌, Option, none, some, List, [], ◌∷◌, ◌++◌, Text,
  text_eq, length, find, any, update, delete, ◌==◌, ltb, if◌then◌else◌,
}
use crypto_pigeon.Relay.Db.{Uuid, Opaque, Device, Session, VaultLock, Backup, Db}

pub record Body : Type 0 where
  pub lookup_token : Opaque
  pub version : ℕ
  pub nonce : Text
  pub ciphertext : Text
  pub updated_at : Opaque
  pub fragment7_shard : Text
  pub writer_public_key : Text
  pub signature : Opaque
  pub device_id : Option Uuid
  pub instance_hash : Option Opaque
  pub device_signature : Option Opaque
  pub claim : Bool

-- What the relay checks signatures of, by its tag: `cp-backup-write-v1`, `cp-backup-delete-v1` and
-- `cp-vault-instance-v1`. A write signs every field of the body but the signature.
pub data Signed : Type 0 where
  write : Body → Signed
  remove : (token version : ℕ) → Signed
  instance_of : Opaque → Signed

pub data Failure : Type 0 where
  lookup_mismatch backup_too_large invalid_backup_signature digest_mismatch : Failure
  backup_conflict internal_error invalid_device_proof vault_moved : Failure

pub data Reply : Type 0 where
  failed : Failure → Reply
  skipped stored : (version : ℕ) → Reply
  deleted : Reply

abbrev pub max_bytes : ℕ
max_bytes = 67108864

abbrev pub opt_eq : Option ℕ → Option ℕ → Bool
opt_eq none none = true
opt_eq none (some b) = false
opt_eq (some a) none = false
opt_eq (some a) (some b) = a == b

abbrev pub bool_eq : Bool → Bool → Bool
bool_eq true b = b
bool_eq false b = not b

abbrev pub or_else : Option ℕ → ℕ → ℕ
or_else none d = d
or_else (some a) d = a

unfoldable pub for_token : Opaque → Backup → Bool
for_token token b = b.lookup_token == token

abbrev pub with_signature : Opaque → Body → Body
with_signature sig body = record body { signature = sig }

-- The device checks' outcome: a refusal with ROLLBACK, or the database to go on with.
pub data Checked : Type 0 where
  refuse : Failure → Checked
  go : Db → Checked

unfoldable pub lock_of : Uuid → List VaultLock → Option VaultLock
lock_of device locks = find (λ l. l.device_id == device) locks

unfoldable pub held_by_other : Opaque → Option VaultLock → Bool
held_by_other hash none = false
held_by_other hash (some l) = not (l.instance_hash == hash)

unfoldable pub set_lock : Uuid → Opaque → List VaultLock → List VaultLock
set_lock device hash locks =
    if any (λ l. l.device_id == device) locks
    then update (λ l. l.device_id == device) (λ l. record l { instance_hash = hash }) locks
    else locks ++ record { device_id = device; instance_hash = hash } ∷ []

unfoldable pub take_over : Bool → Bool → Uuid → Opaque → Db → Db
take_over same claim device hash db = record db {
  locks = if not same || claim then set_lock device hash db.locks else db.locks;
  sessions = if claim then delete (λ s. s.device_id == device) db.sessions else db.sessions;
}

unfoldable pub check_lock : Body → Bool → Uuid → Opaque → Db → Checked
check_lock body same device hash db =
    if held_by_other hash (lock_of device db.locks) && not body.claim
    then refuse vault_moved
    else go (take_over same body.claim device hash db)

abbrev pub differs : Option ℕ → ℕ → Bool
differs none b = false
differs (some a) b = not (a == b)

-- GET /api/vault-backup/:lookupToken
unfoldable pub get : Opaque → Db → Option Backup
get token db = find (for_token token) db.backups

abbrev pub version_of : Option Backup → ℕ
version_of none = 0
version_of (some old) = old.version

-- node:crypto as the relay uses it.
pub record Crypto : Type 0 where
  pub verify : Text → Signed → Opaque → Bool
  pub sha256 : Text → Opaque

module _ (c : Crypto) where
  -- A retry of the same complete signed backup.
  unfoldable pub identical : Body → Backup → Bool
  identical body old =
      or_else old.ciphertext_sha256 (c.sha256 old.ciphertext) == c.sha256 body.ciphertext
      && text_eq old.writer_public_key body.writer_public_key
      && text_eq old.nonce body.nonce
      && text_eq old.fragment7_shard body.fragment7_shard
      && opt_eq old.device_id body.device_id
      && opt_eq old.instance_hash body.instance_hash
      && opt_eq old.device_signature body.device_signature
      && bool_eq old.claim body.claim

  unfoldable pub is_identical : Body → Option Backup → Bool
  is_identical body none = false
  is_identical body (some old) = identical body old

  -- Another writer's key, or a version that neither follows the stored one nor repeats it.
  unfoldable pub conflicts : Body → Option Backup → Bool
  conflicts body none = not (body.version == 1)
  conflicts body (some old) =
      not (text_eq old.writer_public_key body.writer_public_key)
      || (not (body.version == old.version + 1)
          && not (identical body old && body.version == old.version))

  unfoldable pub check_proof : Body → Bool → Uuid → Opaque → Opaque → Option Device → Db → Checked
  check_proof body same device hash sig none db = refuse invalid_device_proof
  check_proof body same device hash sig (some d) db =
      if c.verify d.auth_public_key (instance_of hash) sig
      then check_lock body same device hash db
      else refuse invalid_device_proof

  -- All three parts of the device proof, or none of them.
  unfoldable pub check_device :
      Body → Bool → Option Uuid → Option Opaque → Option Opaque → Db → Checked
  check_device body same none none none db = go db
  check_device body same (some device) (some hash) (some sig) db =
      check_proof body same device hash sig
        (find (λ d. d.device_id == device && not d.revoked) db.devices) db
  check_device body same _ _ _ db = refuse internal_error

  unfoldable pub row_of : Body → Backup
  row_of body = record {
    lookup_token = body.lookup_token;
    version = body.version;
    nonce = body.nonce;
    ciphertext = body.ciphertext;
    fragment7_shard = body.fragment7_shard;
    writer_public_key = body.writer_public_key;
    signature = body.signature;
    signed_at = body.updated_at;
    device_id = body.device_id;
    instance_hash = body.instance_hash;
    device_signature = body.device_signature;
    claim = body.claim;
    ciphertext_sha256 = some (c.sha256 body.ciphertext);
  }

  -- The update sets every column but the token and the writer's key.
  unfoldable pub overwrite : Body → Backup → Backup
  unfolding row_of
  overwrite body old = record (row_of body) {
    lookup_token = old.lookup_token;
    writer_public_key = old.writer_public_key;
  }

  unfoldable pub upsert : Body → List Backup → List Backup
  upsert body rows =
      if any (for_token body.lookup_token) rows
      then update (for_token body.lookup_token) (overwrite body) rows
      else rows ++ row_of body ∷ []

  -- A repetition writes nothing more; its reply has the stored version.
  unfoldable pub finish : Body → Option Backup → Db → Checked → Reply × Db
  finish body old db (refuse f) = (failed f, db)
  finish body old db (go db') =
      if is_identical body old && not body.claim
      then (skipped (version_of old), db')
      else (stored body.version, record db' { backups = upsert body db'.backups })

  unfoldable pub transact : Body → Option Backup → Db → Reply × Db
  transact body old db =
      if conflicts body old
      then (failed backup_conflict, db)
      else finish body old db (
          check_device body (is_identical body old) body.device_id body.instance_hash
            body.device_signature db)

  -- The checks before the transaction; `none` lets the write go on.
  unfoldable pub preflight : Option Opaque → Option Opaque → Body → Option Failure
  preflight path_token digest body =
      if differs path_token body.lookup_token
      then some lookup_mismatch
      else if ltb (length body.ciphertext) 16 || ltb max_bytes (length body.ciphertext)
      then some backup_too_large
      else if not (length body.writer_public_key == 44)
          || not (c.verify body.writer_public_key (write (with_signature 0 body)) body.signature)
      then some invalid_backup_signature
      else if differs digest (c.sha256 body.ciphertext)
      then some digest_mismatch
      else none

  unfoldable pub put_checked : Option Failure → Body → Db → Reply × Db
  put_checked (some f) body db = (failed f, db)
  put_checked none body db = transact body (find (for_token body.lookup_token) db.backups) db

  -- PUT /api/vault-backup/:lookupToken, with the token of the path, and POST .../put, without one.
  unfoldable pub put : Option Opaque → Option Opaque → Body → Db → Reply × Db
  put path_token digest body db = put_checked (preflight path_token digest body) body db

  unfoldable pub delete_row : Opaque → ℕ → Opaque → Option Backup → Db → Reply × Db
  delete_row token version sig none db = (failed invalid_backup_signature, db)
  delete_row token version sig (some row) db =
      if c.verify row.writer_public_key (remove token version) sig
      then if any (λ b. b.lookup_token == token && b.version == version) db.backups
        then (
          deleted,
          record db {
            backups = delete (λ b. b.lookup_token == token && b.version == version) db.backups;
          },
        )
        else (failed backup_conflict, db)
      else (failed invalid_backup_signature, db)

  -- DELETE /api/vault-backup/:lookupToken
  unfoldable pub delete_backup : Opaque → ℕ → Opaque → Db → Reply × Db
  delete_backup token version sig db =
      delete_row token version sig (find (for_token token) db.backups) db
