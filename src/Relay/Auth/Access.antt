-- ===== src/Relay/Auth/Access.antt =====
-- The check before each route: what an accepted token proves, and that a vault's move ends it.
use crypto_pigeon.Prelude.{
  ℕ, ◌<◌, ◌≡◌, ◌≢◌, refl, ap, true, Option, none, some, arith, find, ◌==◌, Bool-cases, inl, inr,
}
use crypto_pigeon.Prelude.Rows.Laws.{find-holds, any_of_found}
use crypto_pigeon.Relay.Db.{Uuid, Opaque, Session, Db}
use crypto_pigeon.Relay.Auth.{
  device_active, valid_session, instance_allowed, check_instance, AuthReply, authenticated,
  authenticate,
}
use crypto_pigeon.Relay.Backup.{Crypto, Body, stored, put}
use crypto_pigeon.Relay.Backup.Moves.{has_session, put-IsMoved}

-- What an accepted request has established.
pub record IsAuthenticated (sha256 : Opaque → Opaque) (now : ℕ) (token : Opaque)
    (header : Option Opaque) (db : Db) (device : Uuid) : Type 0 where
  pub session : Session
  pub row : find (valid_session now token db) db.sessions ≡ some session
  pub same_token : session.token ≡ token
  pub same_device : session.device_id ≡ device
  pub unexpired : now < session.expires_at
  pub active : device_active device db ≡ true
  pub instance_ok :
      instance_allowed sha256 header (find (λ l. l.device_id == device) db.locks) ≡ true

valid_session-facts :
    (now : ℕ) (token : Opaque) (db : Db) (s : Session)
    → valid_session now token db s ≡ true
    → (s.token ≡ token) × (now < s.expires_at) × (device_active s.device_id db ≡ true)
unfolding valid_session
valid_session-facts now token db s h = ground arith

device_in : AuthReply → Uuid
device_in (authenticated d) = d
device_in _ = 0

authenticated-injective : (a b : Uuid) → authenticated a ≡ authenticated b → a ≡ b
unfolding device_in
authenticated-injective a b e = ap device_in e

check_instance-IsAuthenticated :
    (sha256 : Opaque → Opaque) (now : ℕ) (token : Opaque) (header : Option Opaque) (db : Db)
    (device : Uuid) (o : Option Session)
    → find (valid_session now token db) db.sessions ≡ o
    → check_instance sha256 header o db ≡ authenticated device
    → IsAuthenticated sha256 now token header db device
unfolding check_instance
check_instance-IsAuthenticated sha256 now token header db device none row h = absurd (cc h)
check_instance-IsAuthenticated sha256 now token header db device (some s) row h =
    let (same_token, unexpired, active) =
      valid_session-facts now token db s
        (find-holds (valid_session now token db) db.sessions s row) in
    elim (Bool-cases
      (instance_allowed sha256 header (find (λ l. l.device_id == s.device_id) db.locks))) [
        | inr refused ↦ absurd (cc (rw refused at h))
        | inl allowed ↦
            let same : s.device_id ≡ device =
              authenticated-injective s.device_id device (rw allowed at h) in
            record {
              session = s;
              row = row;
              same_token = same_token;
              same_device = same;
              unexpired = unexpired;
              active = rw (← same) active;
              instance_ok = rw (← same) allowed;
            }
      ]

-- A request is let through as a device only with the token of an unexpired session of that device,
-- while the device and its user are not revoked, and, if the device's vault is locked to an instance,
-- with that instance's secret.
pub authenticate-IsAuthenticated :
    (sha256 : Opaque → Opaque) (now : ℕ) (token : Opaque) (header : Option Opaque) (db : Db)
    (device : Uuid)
    → authenticate sha256 now (some token) header db ≡ authenticated device
    → IsAuthenticated sha256 now token header db device
unfolding authenticate
authenticate-IsAuthenticated sha256 now token header db device h =
    check_instance-IsAuthenticated sha256 now token header db device
      (find (valid_session now token db) db.sessions) refl h

IsAuthenticated-has_session :
    {sha256 : Opaque → Opaque} {now token : ℕ} {header : Option Opaque} {db : Db} {device : Uuid}
    → IsAuthenticated sha256 now token header db device
    → has_session device db.sessions ≡ true
IsAuthenticated-has_session {now = now} {token} {db = db} {device} h =
    any_of_found (valid_session now token db) (λ (s : Session). s.device_id == device) db.sessions
      h.session h.row (rw h.same_device (ground arith))

-- When a backup claims a device's vault for an instance, every token of that device stops working,
-- with or without an instance header, until the device logs in again.
pub claim_ends_sessions :
    (c : Crypto) (path digest : Option Opaque) (body : Body) (db : Db) (v : ℕ) (device : Uuid)
    (hash : Opaque)
    → body.device_id ≡ some device
    → body.instance_hash ≡ some hash
    → body.claim ≡ true
    → (put c path digest body db).0 ≡ stored v
    → (sha256 : Opaque → Opaque) (now : ℕ) (token : Opaque) (header : Option Opaque)
    → authenticate sha256 now (some token) header (put c path digest body db).1
      ≢ authenticated device
claim_ends_sessions c path digest body db v device hash named inst claim ok sha256 now token header
      e =
    let moved = put-IsMoved c path digest body db v device hash named inst ok in
    let open_session = IsAuthenticated-has_session (
      authenticate-IsAuthenticated sha256 now token header (put c path digest body db).1 device
        e) in
    ground (arith, moved.sessions)
