-- ===== src/Relay/Prekeys.antt =====
-- apps/relay-server/src/prekeys.ts: uploading prekeys, and the bundle that consumes one of each kind.
-- Rows stand in the order of their upload, which `ORDER BY uploaded_at` follows.
pub mod Handout
pub mod Rotation
pub mod Uniqueness
pub mod Consumption
pub mod Bundles
pub mod Granting
pub mod Cleanup
use crypto_pigeon.Prelude.{
  ℕ, ◌+◌, max, Bool, true, false, not, ◌&&◌, Option, none, some, List, [], ◌∷◌, ◌++◌, any, select,
  update, count, ◌==◌, if◌then◌else◌,
}
use crypto_pigeon.Relay.Db.{
  Uuid, Opaque, SignedPrekey, OneTimePrekey, PrekeyType, one_time, last_resort, PqPrekey,
  KeyVersion, Db,
}

-- An uploaded key: its id, the key, and its signature where it has one.
pub record Upload : Type 0 where
  pub id : ℕ
  pub public_key : Opaque
  pub signature : Opaque

unfoldable pub upsert_signed : ℕ → Uuid → Upload → List SignedPrekey → List SignedPrekey
upsert_signed now device u rows =
    if any (λ r. r.device_id == device && r.signal_prekey_id == u.id) rows
    then update (λ r. r.device_id == device && r.signal_prekey_id == u.id)
        (λ r. record r { public_key = u.public_key; signature = u.signature; uploaded_at = now })
        rows
    else rows
      ++ record {
        device_id = device;
        signal_prekey_id = u.id;
        public_key = u.public_key;
        signature = u.signature;
        uploaded_at = now;
      }
        ∷ []

-- `COALESCE(MAX(version), 0)`
unfoldable pub last_version : Uuid → List KeyVersion → ℕ
last_version device [] = 0
last_version device (v ∷ vs) =
    if v.device_id == device then max v.version (last_version device vs) else last_version device vs

-- POST /api/prekeys/signed
unfoldable pub upload_signed : (Opaque → Opaque) → ℕ → Uuid → Upload → Db → Db
unfolding upsert_signed last_version
upload_signed sha256 now device u db = record db {
  signed_prekeys = upsert_signed now device u db.signed_prekeys;
  key_versions =
      db.key_versions
      ++ record {
        device_id = device;
        version = last_version device db.key_versions + 1;
        fingerprint = sha256 u.public_key;
      }
        ∷ [];
}

unfoldable pub is_key : Uuid → ℕ → OneTimePrekey → Bool
is_key device id r = r.device_id == device && r.signal_prekey_id == id

unfoldable pub upsert_one_time : Uuid → Upload → List OneTimePrekey → List OneTimePrekey
unfolding is_key
upsert_one_time device u rows =
    if any (is_key device u.id) rows
    then update (is_key device u.id) (λ r. record r { public_key = u.public_key; consumed = false })
        rows
    else rows
      ++ record {
        device_id = device;
        signal_prekey_id = u.id;
        public_key = u.public_key;
        consumed = false;
      }
        ∷ []

unfoldable pub upsert_all : Uuid → List Upload → List OneTimePrekey → List OneTimePrekey
upsert_all device [] rows = rows
upsert_all device (u ∷ us) rows = upsert_all device us (upsert_one_time device u rows)

-- POST /api/prekeys/one-time
unfoldable pub upload_one_time : Uuid → List Upload → Db → Db
unfolding upsert_all upsert_one_time
upload_one_time device us db = record db {
  one_time_prekeys = upsert_all device us db.one_time_prekeys;
}

unfoldable pub is_one_time : PrekeyType → Bool
is_one_time one_time = true
is_one_time last_resort = false

-- A conflict leaves the prekey's type as it was.
unfoldable pub upsert_pq : PrekeyType → Uuid → Upload → List PqPrekey → List PqPrekey
upsert_pq kind device u rows =
    if any (λ r. r.device_id == device && r.signal_prekey_id == u.id) rows
    then update (λ r. r.device_id == device && r.signal_prekey_id == u.id)
        (λ r. record r { public_key = u.public_key; signature = u.signature; consumed = false })
        rows
    else rows
      ++ record {
        device_id = device;
        signal_prekey_id = u.id;
        public_key = u.public_key;
        signature = u.signature;
        prekey_type = kind;
        consumed = false;
      }
        ∷ []

unfoldable pub upsert_pq_all : Uuid → List Upload → List PqPrekey → List PqPrekey
upsert_pq_all device [] rows = rows
upsert_pq_all device (u ∷ us) rows = upsert_pq_all device us (upsert_pq one_time device u rows)

abbrev pub upsert_last : Uuid → Option Upload → List PqPrekey → List PqPrekey
upsert_last device none rows = rows
upsert_last device (some u) rows = upsert_pq last_resort device u rows

-- POST /api/prekeys/pq-one-time
unfoldable pub upload_pq : Uuid → List Upload → Option Upload → Db → Db
unfolding upsert_pq_all upsert_pq
upload_pq device us last db = record db {
  pq_prekeys = upsert_last device last (upsert_pq_all device us db.pq_prekeys);
}

unfoldable pub available : Uuid → OneTimePrekey → Bool
available device r = r.device_id == device && not r.consumed

unfoldable pub pq_available : Uuid → PqPrekey → Bool
unfolding is_one_time
pq_available device r = r.device_id == device && not r.consumed && is_one_time r.prekey_type

-- GET /api/prekeys/count
unfoldable pub counts : Uuid → Db → ℕ × ℕ
unfolding available pq_available
counts device db = (
  count (select (available device) db.one_time_prekeys),
  count (select (pq_available device) db.pq_prekeys),
)
