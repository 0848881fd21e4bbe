-- ===== src/Relay/Inserts.antt =====
-- apps/relay-server/src/auth.ts: the INSERT statements of an activation; `none` where a constraint of
-- the table refuses a row.
use crypto_pigeon.Prelude.{
  ℕ, ◌&&◌, ◌||◌, Bool, false, Option, none, some, List, [], ◌∷◌, ◌++◌, any, ◌==◌, if◌then◌else◌,
}
use crypto_pigeon.Relay.Db.{Uuid, User, Device, SignedPrekey, OneTimePrekey, PrekeyType, PqPrekey}
use crypto_pigeon.Relay.Prekeys.{Upload, is_key}

-- Inserting keys that no constraint refuses.
unfoldable pub insert_keys : Uuid → List Upload → List OneTimePrekey → Option (List OneTimePrekey)
insert_keys device [] rows = some rows
insert_keys device (u ∷ us) rows =
    let rest = insert_keys device us (
      rows
      ++ record {
        device_id = device;
        signal_prekey_id = u.id;
        public_key = u.public_key;
        consumed = false;
      }
        ∷ []) in
    if any (is_key device u.id) rows then none else rest

unfoldable pub is_pq_key : Uuid → ℕ → PqPrekey → Bool
is_pq_key device id r = r.device_id == device && r.signal_prekey_id == id

unfoldable pub insert_pq_keys :
    PrekeyType → Uuid → List Upload → List PqPrekey → Option (List PqPrekey)
insert_pq_keys kind device [] rows = some rows
insert_pq_keys kind device (u ∷ us) rows =
    let rest = insert_pq_keys kind device us (
      rows
      ++ record {
        device_id = device;
        signal_prekey_id = u.id;
        public_key = u.public_key;
        signature = u.signature;
        prekey_type = kind;
        consumed = false;
      }
        ∷ []) in
    if any (is_pq_key device u.id) rows then none else rest

unfoldable pub insert_user : User → List User → Option (List User)
insert_user u users =
    if any (λ v. v.user_id == u.user_id || v.username == u.username) users
    then none
    else some (users ++ u ∷ [])

unfoldable pub insert_device : Device → List Device → Option (List Device)
insert_device d devices =
    if any (λ e. e.device_id == d.device_id) devices then none else some (devices ++ d ∷ [])

unfoldable pub insert_signed : ℕ → Uuid → Upload → List SignedPrekey → Option (List SignedPrekey)
insert_signed now device u rows =
    if any (λ r. r.device_id == device && r.signal_prekey_id == u.id) rows
    then none
    else some (
        rows
        ++ record {
          device_id = device;
          signal_prekey_id = u.id;
          public_key = u.public_key;
          signature = u.signature;
          uploaded_at = now;
        }
          ∷ [])
