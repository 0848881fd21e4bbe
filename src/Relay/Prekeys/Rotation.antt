-- ===== src/Relay/Prekeys/Rotation.antt =====
-- apps/relay-server/src/prekeys.ts: the signed prekeys that are no longer needed.
use crypto_pigeon.Prelude.{
  ℕ, ◌+◌, Bool, false, not, ◌&&◌, Option, none, some, List, delete, ◌==◌, ltb,
}
use crypto_pigeon.Relay.Db.{SignedPrekey, Db}
use crypto_pigeon.Relay.Prekeys.Handout.{latest}

abbrev pub thirty_days : ℕ
thirty_days = 2592000000

abbrev pub is_latest : SignedPrekey → Option SignedPrekey → Bool
is_latest r none = false
is_latest r (some s) = r.signal_prekey_id == s.signal_prekey_id

unfoldable pub is_stale : ℕ → List SignedPrekey → SignedPrekey → Bool
is_stale now rows r =
    ltb (r.uploaded_at + thirty_days) now && not (is_latest r (latest r.device_id rows))

-- POST /api/prekeys/cleanup: old rows, but not the latest of a device.
unfoldable pub cleanup : ℕ → Db → Db
cleanup now db = record db {
  signed_prekeys = delete (is_stale now db.signed_prekeys) db.signed_prekeys;
}
