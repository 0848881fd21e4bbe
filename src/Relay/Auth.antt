-- ===== src/Relay/Auth.antt =====
-- apps/relay-server/src/auth.ts: the challenge-response login and the checks before each route.
-- Signature verification, SHA-256 and random values are node:crypto's, and are arguments.
pub mod Login
pub mod Access
use crypto_pigeon.Prelude.{
  ℕ, ◌+◌, Bool, true, false, not, ◌&&◌, ◌||◌, Option, none, some, List, [], ◌∷◌, ◌++◌, map, Text,
  text_eq, find, any, delete, select, ◌==◌, ltb, if◌then◌else◌,
}
use crypto_pigeon.Relay.Db.{Uuid, Opaque, Device, Session, VaultLock, Db}
use crypto_pigeon.Relay.Conversations.{user_active}

-- A challenge that was handed out; the map holds at most one for each device.
pub record Challenge : Type 0 where
  pub challenge : Opaque
  pub expires_at : ℕ

abbrev pub Challenges : Type 0
Challenges = List (Uuid × Challenge)

unfoldable pub challenge_of : Uuid → Challenges → Option Challenge
challenge_of device [] = none
challenge_of device ((d, ch) ∷ rest) = if d == device then some ch else challenge_of device rest

unfoldable pub forget : Uuid → Challenges → Challenges
forget device challenges = delete (λ e. e.0 == device) challenges

unfoldable pub remember : Uuid → Challenge → Challenges → Challenges
unfolding forget
remember device ch challenges = (device, ch) ∷ forget device challenges

unfoldable pub timing_safe_compare : Text → Text → Bool
timing_safe_compare a b = text_eq a b

pub data ChallengeReply : Type 0 where
  device_not_registered : ChallengeReply
  challenged : Challenge → ChallengeReply

unfoldable pub is_active_device : Uuid → Device → Bool
is_active_device device d = d.device_id == device && not d.revoked

-- POST /api/auth/challenge; `random` is the new challenge.
unfoldable pub request_challenge : ℕ → Opaque → Uuid → Db → Challenges → ChallengeReply × Challenges
unfolding remember is_active_device
request_challenge now random device db challenges =
    if any (is_active_device device) db.devices
    then (let ch : Challenge = record { challenge = random; expires_at = now + 60000 } in
        (challenged ch, remember device ch challenges))
    else (device_not_registered, challenges)

pub record Answer : Type 0 where
  pub device_id : Uuid
  pub challenge : Opaque
  pub signature : Opaque
  pub relay_hostname : Text

pub data LoginReply : Type 0 where
  challenge_not_found challenge_mismatch challenge_expired invalid_relay_hostname : LoginReply
  unknown_device invalid_signature : LoginReply
  logged_in : (token expires_at : ℕ) → LoginReply

abbrev pub day : ℕ
day = 86400000

-- The check of a signature over the device's id, the challenge and the relay's host name.
abbrev pub Verify : Type 0
Verify = Text → Uuid → Opaque → Text → Opaque → Bool

unfoldable pub open_session : ℕ → Opaque → Uuid → Db → Db
open_session now token device db = record db {
  sessions =
      db.sessions ++ record { token = token; device_id = device; expires_at = now + day } ∷ [];
}

unfoldable pub check_signature : Verify → ℕ → Opaque → Answer → Option Device → Db → LoginReply × Db
unfolding open_session
check_signature verify now token a none db = (unknown_device, db)
check_signature verify now token a (some d) db =
    if verify d.auth_public_key a.device_id a.challenge a.relay_hostname a.signature
    then (logged_in token (now + day), open_session now token a.device_id db)
    else (invalid_signature, db)

unfoldable pub check_answer :
    Verify → List Text → ℕ → Opaque → Answer → Option Challenge → Db → LoginReply × Db
check_answer verify hosts now token a none db = (challenge_not_found, db)
check_answer verify hosts now token a (some kept) db =
    if not (kept.challenge == a.challenge)
    then (challenge_mismatch, db)
    else if ltb kept.expires_at now
    then (challenge_expired, db)
    else if not (any (timing_safe_compare a.relay_hostname) hosts)
    then (invalid_relay_hostname, db)
    else check_signature verify now token a (find (is_active_device a.device_id) db.devices) db

-- POST /api/auth/respond: the challenge is consumed before it is looked at.
unfoldable pub respond :
    Verify → List Text → ℕ → Opaque → Answer → Db × Challenges → LoginReply × Db × Challenges
respond verify hosts now token a (db, challenges) =
    let (reply, db') =
      check_answer verify hosts now token a (challenge_of a.device_id challenges) db in
    (reply, db', forget a.device_id challenges)

pub data AuthReply : Type 0 where
  unauthorized_missing_token unauthorized_invalid_token vault_moved : AuthReply
  authenticated : Uuid → AuthReply

-- The join of a session with its unrevoked device and user.
unfoldable pub device_active : Uuid → Db → Bool
unfolding is_active_device
device_active device db =
    any (λ d. is_active_device device d && user_active d.user_id db.users) db.devices

unfoldable pub valid_session : ℕ → Opaque → Db → Session → Bool
valid_session now token db s =
    s.token == token && ltb now s.expires_at && device_active s.device_id db

-- A locked device needs the header of the instance that holds the lock.
unfoldable pub instance_allowed : (Opaque → Opaque) → Option Opaque → Option VaultLock → Bool
instance_allowed sha256 header none = true
instance_allowed sha256 none (some lock) = false
instance_allowed sha256 (some instance_id) (some lock) = sha256 instance_id == lock.instance_hash

unfoldable pub check_instance : (Opaque → Opaque) → Option Opaque → Option Session → Db → AuthReply
check_instance sha256 header none db = unauthorized_invalid_token
check_instance sha256 header (some s) db =
    if instance_allowed sha256 header (find (λ l. l.device_id == s.device_id) db.locks)
    then authenticated s.device_id
    else vault_moved

-- authMiddleware; the token is that of a `Bearer` header.
unfoldable pub authenticate : (Opaque → Opaque) → ℕ → Option Opaque → Option Opaque → Db → AuthReply
authenticate sha256 now none header db = unauthorized_missing_token
authenticate sha256 now (some token) header db =
    check_instance sha256 header (find (valid_session now token db) db.sessions) db
