-- ===== src/Relay/Activation.antt =====
-- apps/relay-server/src/auth.ts: applying for a name, and activating the account with the code.
-- The keyed hash of a code and formatPublicUid's hash are node:crypto's, and are arguments; the
-- random values of a request are arguments too, and collide with nothing that is stored.
pub mod Uids
pub mod Attempts
pub mod Reuse
pub mod Accounts
use crypto_pigeon.Prelude.{
  ℕ, zero, suc, ◌+◌, ◌>>=◌, Bool, true, false, not, ◌&&◌, ◌||◌, Option, none, some, List, [], ◌∷◌,
  ◌++◌, Text, text_eq, find, any, update, count, ◌==◌, ltb, leb, if◌then◌else◌,
}
use crypto_pigeon.Relay.Db.{
  Uuid, Opaque, User, Device, AccessStatus, pending, approved, rejected, activated, AccessRequest,
  SignedPrekey, OneTimePrekey, PrekeyType, one_time, last_resort, PqPrekey, Db,
}
use crypto_pigeon.Relay.Auth.{is_active_device, open_session, day}
use crypto_pigeon.Relay.Prekeys.{Upload, is_key}
use crypto_pigeon.Relay.Inserts.{
  insert_keys, insert_pq_keys, insert_user, insert_device, insert_signed,
}

pub data ApplyReply : Type 0 where
  username_unavailable : ApplyReply
  code_issued : (request_id code : Opaque) → ApplyReply

unfoldable pub is_open : AccessStatus → Bool
is_open pending = true
is_open approved = true
is_open rejected = false
is_open activated = false

-- A comparison with NULL is not true.
unfoldable pub is_past : ℕ → Option ℕ → Bool
is_past now none = false
is_past now (some expiry) = ltb expiry now

abbrev pub ten_minutes : ℕ
ten_minutes = 600000

-- The values that `apply` draws: the request's id and the code.
pub record Claim : Type 0 where
  pub request_id : Uuid
  pub code : Opaque

module _ (hmac : Opaque → Opaque) (now : ℕ) (claim : Claim) (username : Opaque) where
  unfoldable pub new_request : AccessRequest
  new_request = record {
    request_id = claim.request_id;
    username = username;
    status = approved;
    activation_code_hash = some (hmac claim.code);
    attempt_count = 0;
    activation_expires_at = some (now + ten_minutes);
  }

  -- The INSERT with its conflict clause on the name.
  unfoldable pub insert_request : Option AccessRequest → Db → ApplyReply × Db
  unfolding new_request is_open is_past
  insert_request none db = (
    code_issued claim.request_id claim.code,
    record db { access_requests = db.access_requests ++ new_request ∷ [] },
  )
  insert_request (some r) db =
      if is_open r.status && is_past now r.activation_expires_at
      then (
        code_issued claim.request_id claim.code,
        record db {
          access_requests =
              update (λ q. q.username == username) (λ q. new_request) db.access_requests;
        },
      )
      else (username_unavailable, db)

  -- POST /api/access/apply
  unfoldable pub apply : Db → ApplyReply × Db
  apply db =
      if any (λ u. u.username == username) db.users
      then (username_unavailable, db)
      else insert_request (find (λ r. r.username == username) db.access_requests) db

-- The body of POST /api/access/activate.
pub record Payload : Type 0 where
  pub request_id : Uuid
  pub activation_code : Opaque
  pub device_id : Uuid
  pub identity_key : Opaque
  pub auth_key : Text
  pub registration_id : ℕ
  pub signal_device_id : ℕ
  pub signed_prekey : Upload
  pub one_time_prekeys : List Upload
  pub pq_prekeys : List Upload
  pub last_resort_prekey : Upload

pub data Failure : Type 0 where
  request_not_found activation_already_completed request_not_approved : Failure
  activation_code_expired activation_attempts_exceeded activation_code_invalid : Failure
  prekey_registration_failed : Failure

pub data Reply : Type 0 where
  failed : Failure → Reply
  resumed : (token : Opaque) (user_id device_id : Uuid) → Reply
  created : (token : Opaque) (user_id device_id : Uuid) (public_uid : Opaque) → Reply

-- The loop over public uids: `uid n` is the uid of attempt `n`.
unfoldable pub fresh_uid : ℕ → (ℕ → Opaque) → ℕ → List User → Option Opaque
fresh_uid zero uid attempt users = none
fresh_uid (suc fuel) uid attempt users =
    let rest = fresh_uid fuel uid (attempt + 1) users in
    if any (λ u. u.public_uid == uid attempt) users then rest else some (uid attempt)

unfoldable pub with_status : AccessStatus → AccessRequest → AccessRequest
with_status s r = record r { status = s }

unfoldable pub count_attempt : AccessRequest → AccessRequest
count_attempt r = record r { attempt_count = r.attempt_count + 1 }

unfoldable pub has_id : Uuid → AccessRequest → Bool
has_id id r = r.request_id == id

unfoldable pub in_requests : (AccessRequest → AccessRequest) → Uuid → Db → Db
in_requests f id db = record db { access_requests = update (has_id id) f db.access_requests }

pub record PrekeyTables : Type 0 where
  pub signed : List SignedPrekey
  pub one_time : List OneTimePrekey
  pub pq : List PqPrekey

abbrev pub attach : Opaque → Option Db → Option (Opaque × Db)
attach public_uid none = none
attach public_uid (some db) = some (public_uid, db)

-- The random values of an activation: the new user's id, and the session's token.
pub record Draw : Type 0 where
  pub user_id : Uuid
  pub token : Opaque

module _ (hmac : Opaque → Opaque) (uid : Uuid → ℕ → Opaque) (now : ℕ) (draw : Draw)
    (p : Payload) where
  unfoldable pub new_user : Opaque → Opaque → User
  new_user username public_uid = record {
    user_id = draw.user_id;
    username = username;
    public_uid = public_uid;
    revoked = false;
  }

  unfoldable pub new_device : Device
  new_device = record {
    device_id = p.device_id;
    user_id = draw.user_id;
    identity_public_key = p.identity_key;
    auth_public_key = p.auth_key;
    registration_id = p.registration_id;
    signal_device_id = p.signal_device_id;
    revoked = false;
  }

  unfoldable pub prekey_tables : Db → Option PrekeyTables
  prekey_tables db = do
    signed ← insert_signed now p.device_id p.signed_prekey db.signed_prekeys
    keys ← insert_keys p.device_id p.one_time_prekeys db.one_time_prekeys
    pq ← insert_pq_keys one_time p.device_id p.pq_prekeys db.pq_prekeys
    pq' ← insert_pq_keys last_resort p.device_id (p.last_resort_prekey ∷ []) pq
    some (record { signed = signed; one_time = keys; pq = pq' })

  unfoldable pub stored : List User → List Device → PrekeyTables → Db → Db
  stored users devices keys db = open_session now draw.token p.device_id (
      in_requests (with_status activated) p.request_id (record db {
        users = users;
        devices = devices;
        signed_prekeys = keys.signed;
        one_time_prekeys = keys.one_time;
        pq_prekeys = keys.pq;
      }))

  -- The statements of the transaction that store the account; `none` where a constraint refuses one.
  unfoldable pub store :
      Option (List User) → Option (List Device) → Option PrekeyTables → Db → Option Db
  store none devices keys db = none
  store (some users) none keys db = none
  store (some users) (some devices) none db = none
  store (some users) (some devices) (some keys) db = some (stored users devices keys db)

  unfoldable pub with_uid : Opaque → Option Opaque → Db → Option (Opaque × Db)
  with_uid username none db = none
  with_uid username (some public_uid) db = attach public_uid (
      store (insert_user (new_user username public_uid) db.users)
        (insert_device new_device db.devices) (prekey_tables db) db)

  unfoldable pub register_account : Opaque → Db → Option (Opaque × Db)
  register_account username db =
      with_uid username (fresh_uid (suc (count db.users)) (uid draw.user_id) 0 db.users) db

  unfoldable pub committed : Option (Opaque × Db) → Db → Reply × Db
  committed none db = (failed prekey_registration_failed, db)
  committed (some (public_uid, db')) db =
      (created draw.token draw.user_id p.device_id public_uid, db')

  unfoldable pub code_matches : AccessRequest → Bool
  code_matches r = elim r.activation_code_hash [
    | none ↦ false
    | some hash ↦ hash == hmac p.activation_code
  ]

  -- An attempt is counted before the code is looked at.
  unfoldable pub attempt : AccessRequest → Db → Reply × Db
  attempt r db =
      if code_matches r
      then committed (register_account r.username (in_requests count_attempt p.request_id db)) db
      else (failed activation_code_invalid, in_requests count_attempt p.request_id db)

  unfoldable pub is_expired : Option ℕ → Bool
  is_expired none = true
  is_expired (some expiry) = ltb expiry now

  unfoldable pub try_code : AccessRequest → Db → Reply × Db
  try_code r db =
      if is_expired r.activation_expires_at
      then (failed activation_code_expired, db)
      else if leb 5 r.attempt_count
      then (failed activation_attempts_exceeded, db)
      else attempt r db

  -- The join of the device with the user of the request's name.
  unfoldable pub is_account : Opaque → List User → Device → Bool
  is_account username users d =
      is_active_device p.device_id d
      && any (λ u. u.user_id == d.user_id && u.username == username) users

  unfoldable pub resume : Bool → Option Device → Db → Reply × Db
  resume matches none db = (failed activation_already_completed, db)
  resume matches (some d) db =
      if matches
        && (d.identity_public_key == p.identity_key && text_eq d.auth_public_key p.auth_key)
      then (resumed draw.token d.user_id d.device_id, open_session now draw.token d.device_id db)
      else (failed activation_already_completed, db)

  unfoldable pub by_status : AccessStatus → AccessRequest → Db → Reply × Db
  by_status activated r db =
      resume (code_matches r) (find (is_account r.username db.users) db.devices) db
  by_status approved r db = try_code r db
  by_status pending r db = (failed request_not_approved, db)
  by_status rejected r db = (failed request_not_approved, db)

  unfoldable pub for_request : Option AccessRequest → Db → Reply × Db
  for_request none db = (failed request_not_found, db)
  for_request (some r) db = by_status r.status r db

  -- POST /api/access/activate
  unfoldable pub activate : Db → Reply × Db
  activate db = for_request (find (has_id p.request_id) db.access_requests) db
