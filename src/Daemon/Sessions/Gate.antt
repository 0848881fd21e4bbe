-- ===== src/Daemon/Sessions/Gate.antt =====
-- What a request that is let through has proved.
use crypto_pigeon.Prelude.{
  ℕ, ◌<◌, ◌≡◌, ◌≢◌, refl, Bool, true, false, not, ◌&&◌, ◌||◌, Option, none, ◌∙◌, ap, some, leb,
  arith, Bool-cases, inl, inr,
}
use mathlib.Core.Option.{map}
use crypto_pigeon.Relay.Db.{Opaque}
use crypto_pigeon.Daemon.Sessions.{
  Session, State, invalidate_session, Request, pass, is_given, origin_allowed, live_session,
  check_vault, check_session, verify_local_session,
}

-- What holds of a request to the guarded routes that passes.
pub record IsVerified (now : ℕ) (r : Request) (locked : Bool) (s : State) : Type 0 where
  pub host : r.host ≡ some s.allowed_host
  pub origin : origin_allowed r.origin s.allowed_origin ≡ true
  pub session : Session
  pub active : s.active_session ≡ some session
  pub in_time : now < session.expires_at
  pub cookie : r.cookie ≡ some session.cookie_token
  pub csrf : r.is_write ≡ true → r.csrf ≡ some session.csrf_token
  pub unlocked : r.before_unlock ≡ false → locked ≡ false

abbrev cookie_of : Session → Opaque
cookie_of s = s.cookie_token

is_given-some : (o : Option Opaque) (t : Opaque) → is_given o t ≡ true → o ≡ some t
unfolding is_given
is_given-some none t h = absurd (cc h)
is_given-some (some u) t h = ground arith

check_vault-unlocked :
    (r : Request) (locked : Bool)
    → check_vault r locked ≡ pass
    → r.before_unlock ≡ false
    → locked ≡ false
unfolding check_vault
check_vault-unlocked r false h b = refl
check_vault-unlocked r true h b = absurd (cc (rw b at h))

live_session-facts :
    (now : ℕ) (c : Option Opaque) (o : Option Session) (t : Session)
    → live_session now c o ≡ some t
    → (o ≡ some t) × (now < t.expires_at) × (c ≡ some t.cookie_token)
unfolding live_session
live_session-facts now c none t h = absurd (cc h)
live_session-facts now c (some u) t h =
    elim (Bool-cases (leb u.expires_at now || not (is_given c u.cookie_token))) [
      | inl dead ↦ absurd (cc (rw dead at h))
      | inr live ↦
          let same : some u ≡ some t = rw live at h in
          (
            same,
            ground arith,
            is_given-some c u.cookie_token (ground arith) ∙ ap (map cookie_of) same,
          )
    ]

module _ (now : ℕ) (r : Request) (locked : Bool) (s : State) (host : r.host ≡ some s.allowed_host)
    (origin : origin_allowed r.origin s.allowed_origin ≡ true) where
  check_session-IsVerified :
      (o : Option Session)
      → live_session now r.cookie s.active_session ≡ o
      → check_session r locked o ≡ pass
      → IsVerified now r locked s
  unfolding check_session
  check_session-IsVerified none e h = absurd (cc h)
  check_session-IsVerified (some t) e h =
      let (active, in_time, cookie) = live_session-facts now r.cookie s.active_session t e in
      elim (Bool-cases (r.is_write && not (is_given r.csrf t.csrf_token))) [
        | inl forged ↦ absurd (cc (rw forged at h))
        | inr fine ↦ record {
          host = host;
          origin = origin;
          session = t;
          active = active;
          in_time = in_time;
          cookie = cookie;
          csrf = λ w. is_given-some r.csrf t.csrf_token (ground arith);
          unlocked = check_vault-unlocked r locked (rw fine at h);
        }
      ]

-- A request to a guarded route passes only with the daemon's own host, with its origin or none, with
-- the cookie of the unexpired session, for a write with the session's CSRF token, and, except on the
-- routes that serve a locked vault, with the vault unlocked.
pub verify_local_session-IsVerified :
    (now : ℕ) (r : Request) (locked : Bool) (s : State)
    → (not r.is_api || r.is_open) ≡ false
    → verify_local_session now r locked s ≡ pass
    → IsVerified now r locked s
unfolding verify_local_session
verify_local_session-IsVerified now r locked s guarded h =
    elim (Bool-cases (is_given r.host s.allowed_host)) [
      | inr foreign ↦ absurd (cc (rw foreign at h))
      | inl own ↦ elim (Bool-cases (origin_allowed r.origin s.allowed_origin)) [
        | inr crossed ↦ absurd (cc (rw (own, crossed) at h))
        | inl allowed ↦
            check_session-IsVerified now r locked s (is_given-some r.host s.allowed_host own)
              allowed (live_session now r.cookie s.active_session) refl
              (rw (own, allowed, guarded) at h)
      ]
    ]

-- While no session is active, and so after the session is invalidated, no request to a guarded route
-- passes.
pub invalidate_session-refuses :
    (now : ℕ) (r : Request) (locked : Bool) (s : State)
    → (not r.is_api || r.is_open) ≡ false
    → verify_local_session now r locked (invalidate_session s) ≢ pass
unfolding invalidate_session
invalidate_session-refuses now r locked s guarded h =
    cc ((verify_local_session-IsVerified now r locked (invalidate_session s) guarded h).active)
