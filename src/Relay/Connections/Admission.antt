-- ===== src/Relay/Connections/Admission.antt =====
-- The handshake admits whom the HTTP routes admit.
use crypto_pigeon.Prelude.{
  ℕ, ◌≡◌, refl, Bool, true, false, ◌&&◌, Option, none, some, List, [], ◌∷◌, text_eq, arith, find,
  any, ◌==◌, if◌then◌else◌, Bool-cases, inl, inr,
}
use crypto_pigeon.Relay.Db.{Opaque, Session, Db}
use crypto_pigeon.Relay.Auth.{
  AuthReply, authenticated, unauthorized_missing_token, unauthorized_invalid_token, vault_moved,
  valid_session, instance_allowed, check_instance, authenticate,
}
use crypto_pigeon.Relay.Connections.{
  Upgrade, before_query, ws_path, token_of, Handshake, destroyed, upgraded, with_session,
  with_token, upgrade, is_active,
}

-- The handshake that fits an answer of the middleware.
abbrev pub as_handshake : AuthReply → Handshake
as_handshake (authenticated d) = upgraded d
as_handshake unauthorized_missing_token = destroyed
as_handshake unauthorized_invalid_token = destroyed
as_handshake vault_moved = destroyed

with_session-check_instance :
    (sha256 : Opaque → Opaque) (header : Option Opaque) (o : Option Session) (db : Db)
    → with_session sha256 header o db ≡ as_handshake (check_instance sha256 header o db)
unfolding with_session check_instance
with_session-check_instance sha256 header none db = refl
with_session-check_instance sha256 header (some s) db =
    elim (Bool-cases
      (instance_allowed sha256 header (find (λ l. l.device_id == s.device_id) db.locks))) [
        | inl e ↦ rw e refl
        | inr e ↦ rw e refl
      ]

with_token-authenticate :
    (sha256 : Opaque → Opaque) (now : ℕ) (token header : Option Opaque) (db : Db)
    → with_token sha256 now token header db ≡ as_handshake (authenticate sha256 now token header db)
unfolding with_token authenticate
with_token-authenticate sha256 now none header db = refl
with_token-authenticate sha256 now (some token) header db =
    with_session-check_instance sha256 header (find (valid_session now token db) db.sessions) db

-- A WebSocket is upgraded exactly if its path is /ws and the middleware of the HTTP routes would admit
-- the same token with the same instance header, and it is for the same device.
pub upgrade-authenticate :
    (sha256 : Opaque → Opaque) (now : ℕ) (u : Upgrade) (db : Db)
    → upgrade sha256 now u db ≡ (
        if text_eq (before_query u.url) ws_path
        then as_handshake (authenticate sha256 now (token_of u) u.vault_instance db)
        else destroyed)
unfolding upgrade
upgrade-authenticate sha256 now u db =
    rw (with_token-authenticate sha256 now (token_of u) u.vault_instance db) refl

-- `sessions.token` is a primary key.
abbrev pub HasUniqueTokens : List Session → Type 0
HasUniqueTokens [] = Unit
HasUniqueTokens (s ∷ ss) = (any (λ r. r.token == s.token) ss ≡ false) × HasUniqueTokens ss

abbrev pub is_admitted : AuthReply → Bool
is_admitted (authenticated d) = true
is_admitted unauthorized_missing_token = false
is_admitted unauthorized_invalid_token = false
is_admitted vault_moved = false

abbrev passes : (Opaque → Opaque) → Option Opaque → Db → Session → Bool
passes sha256 header db s =
    instance_allowed sha256 header (find (λ l. l.device_id == s.device_id) db.locks)

none_valid :
    (sha256 : Opaque → Opaque) (now token : ℕ) (header : Option Opaque) (db : Db)
    (ss : List Session)
    → any (λ r. r.token == token) ss ≡ false
    → any (λ s. valid_session now token db s && passes sha256 header db s) ss ≡ false
unfolding valid_session
none_valid sha256 now token header db [] h = refl
none_valid sha256 now token header db (s ∷ ss) h =
    ground (arith, none_valid sha256 now token header db ss)

valid_token :
    (now token : ℕ) (db : Db) (s : Session) → valid_session now token db s ≡ true → s.token ≡ token
unfolding valid_session
valid_token now token db s h = ground arith

active-first :
    (sha256 : Opaque → Opaque) (now token : ℕ) (header : Option Opaque) (db : Db)
    (ss : List Session)
    → HasUniqueTokens ss
    → any (λ s. valid_session now token db s && passes sha256 header db s) ss
      ≡ is_admitted (check_instance sha256 header (find (valid_session now token db) ss) db)
unfolding check_instance
active-first sha256 now token header db [] h = refl
active-first sha256 now token header db (s ∷ ss) (new, h) =
    elim (Bool-cases (valid_session now token db s)) [
      | inr e ↦ rw e (active-first sha256 now token header db ss h)
      | inl e ↦
          let same = valid_token now token db s e in
          let rest = none_valid sha256 now token header db ss (rw same at new) in
          rw (e, rest)
            (elim (Bool-cases (passes sha256 header db s)) [
              | inl k ↦ rw k refl
              | inr k ↦ rw k refl
            ])
    ]

-- The one query by which a connection checks itself, before a signal and at each ping, answers what
-- the middleware answers to the same token and header.
pub is_active-authenticate :
    (sha256 : Opaque → Opaque) (now token : ℕ) (header : Option Opaque) (db : Db)
    → HasUniqueTokens db.sessions
    → is_active sha256 now token header db
      ≡ is_admitted (authenticate sha256 now (some token) header db)
unfolding is_active authenticate
is_active-authenticate sha256 now token header db h =
    active-first sha256 now token header db db.sessions h
