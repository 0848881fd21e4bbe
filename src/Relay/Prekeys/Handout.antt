-- ===== src/Relay/Prekeys/Handout.antt =====
-- apps/relay-server/src/prekeys.ts: a bundle of prekeys is handed out, and its one-time keys are used up.
use crypto_pigeon.Prelude.{
  Bool, true, not, ◌&&◌, ◌||◌, Option, none, some, List, [], ◌∷◌, find, any, ◌==◌, ltb, leb,
  if◌then◌else◌,
}
use crypto_pigeon.Relay.Db.{Uuid, Opaque, User, Device, SignedPrekey, OneTimePrekey, PqPrekey, Db}
use crypto_pigeon.Relay.Sockets.{Net, replenish_warning, notify_client}
use crypto_pigeon.Relay.Conversations.{permitted}
use crypto_pigeon.Relay.Queue.{user_of}
use crypto_pigeon.Relay.Auth.{is_active_device}
use crypto_pigeon.Relay.Prekeys.{available, counts, is_one_time, pq_available}

-- `UPDATE ... SET consumed = true WHERE id = (SELECT ... LIMIT 1) RETURNING ...`
unfoldable pub consume_first {ℓ} : {A : Type ℓ} → (A → Bool) → (A → A) → List A → List A
consume_first p f [] = []
consume_first p f (x ∷ xs) = if p x then f x ∷ xs else x ∷ consume_first p f xs

abbrev pub spend : OneTimePrekey → OneTimePrekey
spend r = record r { consumed = true }

abbrev pub pq_spend : PqPrekey → PqPrekey
pq_spend r = record r { consumed = true }

unfoldable pub later : SignedPrekey → Option SignedPrekey → Option SignedPrekey
later r none = some r
later r (some s) = if leb r.uploaded_at s.uploaded_at then some s else some r

-- `ORDER BY uploaded_at DESC LIMIT 1`
unfoldable pub latest : Uuid → List SignedPrekey → Option SignedPrekey
latest device [] = none
latest device (r ∷ rs) =
    if r.device_id == device then later r (latest device rs) else latest device rs

pub data Failure : Type 0 where
  recipient_required user_not_found conversation_not_approved device_not_found : Failure
  signed_prekey_not_found last_resort_pq_prekey_not_found internal_error : Failure

pub record Bundle : Type 0 where
  pub device : Device
  pub signed : SignedPrekey
  pub one_time : Option OneTimePrekey
  pub pq_one_time : Option PqPrekey
  pub last_resort : PqPrekey

pub data Reply : Type 0 where
  failed : Failure → Reply
  bundle : Bundle → Reply

abbrev pub is_last_resort : Uuid → PqPrekey → Bool
is_last_resort device r = r.device_id == device && not (is_one_time r.prekey_type)

unfoldable pub consumed_db : Uuid → Db → Db
consumed_db target db = record db {
  one_time_prekeys = consume_first (available target) spend db.one_time_prekeys;
  pq_prekeys = consume_first (pq_available target) pq_spend db.pq_prekeys;
}

-- The last step of the transaction: with no last-resort key all is rolled back.
unfoldable pub finish_bundle : Uuid → Device → SignedPrekey → Option PqPrekey → Db → Reply × Db
finish_bundle target d signed none db = (failed last_resort_pq_prekey_not_found, db)
finish_bundle target d signed (some last) db = (
  bundle (record {
    device = d;
    signed = signed;
    one_time = find (available target) db.one_time_prekeys;
    pq_one_time = find (pq_available target) db.pq_prekeys;
    last_resort = last;
  }),
  consumed_db target db,
)

unfoldable pub with_signed : Uuid → Device → Option SignedPrekey → Db → Reply × Db
with_signed target d none db = (failed signed_prekey_not_found, db)
with_signed target d (some signed) db =
    finish_bundle target d signed (find (is_last_resort target) db.pq_prekeys) db

unfoldable pub with_device : Uuid → Option Device → Db → Reply × Db
with_device target none db = (failed device_not_found, db)
with_device target (some d) db = with_signed target d (latest target db.signed_prekeys) db

-- `rows[0].user_id` of an empty result throws, and the handler answers with an internal error.
unfoldable pub check_permission : Uuid → Option Uuid → Option Uuid → Db → Reply × Db
check_permission target none u2 db = (failed internal_error, db)
check_permission target (some u1) none db = (failed internal_error, db)
check_permission target (some u1) (some u2) db =
    if permitted u1 u2 db.permissions
    then with_device target (find (is_active_device target) db.devices) db
    else (failed conversation_not_approved, db)

-- The transaction for a target device that is known by its id.
unfoldable pub bundle_for : Uuid → Uuid → Db → Reply × Db
bundle_for requester target db =
    check_permission target (user_of requester db.devices) (user_of target db.devices) db

unfoldable pub goes_by : Opaque → List User → Device → Bool
goes_by name users d =
    not d.revoked
    && any (λ u. u.user_id == d.user_id && (u.username == name || u.public_uid == name)) users

unfoldable pub resolve : Uuid → Option Device → Db → Reply × Db
resolve requester none db = (failed user_not_found, db)
resolve requester (some d) db = bundle_for requester d.device_id db

-- The transaction of POST /api/prekeys/bundle; a name takes precedence over a device id.
unfoldable pub fetch_bundle : Uuid → Option Uuid → Option Opaque → Db → Reply × Db
fetch_bundle requester none none db = (failed recipient_required, db)
fetch_bundle requester (some target) none db = bundle_for requester target db
fetch_bundle requester target (some name) db =
    resolve requester (find (goes_by name db.users) db.devices) db

-- After the commit: a warning to the recipient's socket when a stock is low.
unfoldable pub warn_low : Uuid → Db → Net → Net
warn_low target db net =
    if ltb (counts target db).0 20 || ltb (counts target db).1 20
    then (notify_client target (replenish_warning (counts target db).0 (counts target db).1) none
        net).1
    else net

unfoldable pub warned : Reply × Db → Net → Reply × Db × Net
warned (failed f, db) net = (failed f, db, net)
warned (bundle b, db) net = (bundle b, db, warn_low b.device.device_id db net)

-- POST /api/prekeys/bundle
unfoldable pub request_bundle : Uuid → Option Uuid → Option Opaque → Db × Net → Reply × Db × Net
request_bundle requester target name (db, net) = warned (fetch_bundle requester target name db) net
