-- ===== src/Examples/Blobs.antt =====
-- Vault backups and attachments: vault-backup.ts and attachments.ts at concrete inputs.
use crypto_pigeon.Prelude.{◌≡◌, ◌≢◌, refl, true, none, some, [], ◌∷◌, ◌==◌, length, arith}
use crypto_pigeon.Relay.Db.{Db}
use crypto_pigeon.Relay.Auth.{authenticated, authenticate}
use crypto_pigeon.Relay.Auth.Access.{claim_ends_sessions}
use crypto_pigeon.Relay.Backup.{
  Body, stored, for_token, lock_of, held_by_other, check_lock, Crypto, identical, is_identical,
  conflicts, check_proof, check_device, finish, transact, preflight, put_checked, put, get,
}
use crypto_pigeon.Relay.Backup.Writes.{IsStored, put-IsStored}
use crypto_pigeon.Relay.Backup.Effects.{get-put_other}
use crypto_pigeon.Relay.Attachments.{Announcement, upload, ChunkBody, put_chunk, delete_blob}
use crypto_pigeon.Relay.Attachments.Bounds.{ArePlaced, requests-ArePlaced}
use crypto_pigeon.Examples.Fixtures.{strangers, repeated}

-- Signatures are valid if they are 77; a text hashes to its length.
abbrev crypto : Crypto
crypto = record { verify = λ key message signature. signature == 77; sha256 = λ t. length t }

abbrev backup : Body
backup = record {
  lookup_token = 500;
  version = 1;
  nonce = repeated 12 1;
  ciphertext = repeated 20 2;
  updated_at = 1000;
  fragment7_shard = [];
  writer_public_key = repeated 44 3;
  signature = 77;
  device_id = some 11;
  instance_hash = some 600;
  device_signature = some 77;
  claim = true;
}

abbrev signed_in : Db
signed_in = record strangers {
  sessions = record { token = 555; device_id = 11; expires_at = 90000000 } ∷ [];
}

backup_ok : (put crypto none none backup signed_in).0 ≡ stored 1
unfolding put put_checked preflight transact conflicts is_identical identical check_device
    check_proof check_lock held_by_other lock_of finish for_token
backup_ok = refl

put-IsStored_example : IsStored crypto backup signed_in (put crypto none none backup signed_in).1 1
put-IsStored_example = put-IsStored crypto none none backup signed_in 1 backup_ok

claim_ends_sessions_example :
    authenticate (λ x. x) 2000 (some 555) (some 600) (put crypto none none backup signed_in).1
    ≢ authenticated 11
claim_ends_sessions_example =
    claim_ends_sessions crypto none none backup signed_in 1 11 600 refl refl refl backup_ok (λ x. x)
      2000 555 (some 600)

get-put_other_example : get 501 (put crypto none none backup signed_in).1 ≡ get 501 signed_in
get-put_other_example = get-put_other crypto none none backup signed_in 501 (λ e. omega arith)

abbrev announcement : Announcement
announcement = record { blob_id = 70; chunk_count = 2; total_size = 65537 }

abbrev chunk : ChunkBody
chunk = record { chunk_index = 1; nonce = repeated 12 1; ciphertext = repeated 17 2 }

abbrev announced : Db
announced = (upload 11 announcement strangers).1

requests-ArePlaced_example :
    ArePlaced announced
    × ArePlaced (put_chunk 11 70 chunk strangers).1
    × ArePlaced (delete_blob 70 strangers).1
requests-ArePlaced_example = requests-ArePlaced 11 70 announcement chunk strangers tt
