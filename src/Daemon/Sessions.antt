-- ===== src/Daemon/Sessions.antt =====
-- apps/local-daemon/src/auth.ts: the session of the local interface. The random secret and tokens are
-- arguments; the host header is compared with `127.0.0.1:` and the port, which the state keeps as the
-- text that it makes.
pub mod Gate
pub mod Bootstrap
use crypto_pigeon.Prelude.{
  ℕ, ◌+◌, Bool, true, false, not, ◌&&◌, ◌||◌, Option, none, some, List, [], ◌∷◌, any, ◌==◌, leb,
  if◌then◌else◌,
}
use crypto_pigeon.Relay.Db.{Opaque}

pub record Session : Type 0 where
  pub cookie_token : Opaque
  pub csrf_token : Opaque
  pub generation : ℕ
  pub expires_at : ℕ

-- `activeSession`, `bootstrapSecret`, and the hosts and origins that belong to `currentPort`.
pub record State : Type 0 where
  pub active_session : Option Session
  pub bootstrap_secret : Option Opaque
  pub allowed_host : Opaque
  pub allowed_origin : Opaque

-- generateBootstrapSecret, for a port with this host and origin
unfoldable pub generate_bootstrap_secret : Opaque → Opaque → Opaque → State → State
generate_bootstrap_secret secret host origin s = record s {
  bootstrap_secret = some secret;
  allowed_host = host;
  allowed_origin = origin;
}

unfoldable pub invalidate_session : State → State
invalidate_session s = record s { active_session = none }

-- nextBootstrapSecret: the port stays.
unfoldable pub next_bootstrap_secret : Opaque → State → State
unfolding invalidate_session generate_bootstrap_secret
next_bootstrap_secret secret s =
    generate_bootstrap_secret secret s.allowed_host s.allowed_origin (invalidate_session s)

-- What verifyLocalSession reads of a request: `is_api` is `url.startsWith('/api/')`, `is_open` is one
-- of the three routes without a session, `before_unlock` one of those that a locked vault answers, and
-- `is_write` a POST, PUT or DELETE. A header that is missing or empty is `none`.
pub record Request : Type 0 where
  pub host : Option Opaque
  pub origin : Option Opaque
  pub is_api : Bool
  pub is_open : Bool
  pub before_unlock : Bool
  pub is_write : Bool
  pub cookie : Option Opaque
  pub csrf : Option Opaque

pub data Verdict : Type 0 where
  invalid_host_header invalid_origin_header unauthorized_local_session : Verdict
  invalid_csrf_token vault_locked pass : Verdict

unfoldable pub is_given : Option Opaque → Opaque → Bool
is_given none token = false
is_given (some t) token = t == token

-- An origin that is not sent is not checked.
unfoldable pub origin_allowed : Option Opaque → Opaque → Bool
origin_allowed none origin = true
origin_allowed (some o) origin = o == origin

unfoldable pub live_session : ℕ → Option Opaque → Option Session → Option Session
live_session now cookie none = none
live_session now cookie (some s) =
    if leb s.expires_at now || not (is_given cookie s.cookie_token) then none else some s

unfoldable pub check_vault : Request → Bool → Verdict
check_vault r locked = if not r.before_unlock && locked then vault_locked else pass

unfoldable pub check_session : Request → Bool → Option Session → Verdict
check_session r locked none = unauthorized_local_session
check_session r locked (some s) =
    if r.is_write && not (is_given r.csrf s.csrf_token)
    then invalid_csrf_token
    else check_vault r locked

-- verifyLocalSession
unfoldable pub verify_local_session : ℕ → Request → Bool → State → Verdict
verify_local_session now r locked s =
    if not (is_given r.host s.allowed_host)
    then invalid_host_header
    else if not (origin_allowed r.origin s.allowed_origin)
    then invalid_origin_header
    else if not r.is_api || r.is_open
    then pass
    else check_session r locked (live_session now r.cookie s.active_session)

pub data BootReply : Type 0 where
  invalid_bootstrap_secret : BootReply
  session_opened : (cookie csrf : Opaque) → BootReply

unfoldable pub generation_of : Option Session → ℕ
generation_of none = 0
generation_of (some s) = s.generation

-- The route after the comparison of the secrets.
unfoldable pub open_session : ℕ → Opaque → Opaque → State → BootReply × State
open_session now cookie csrf s = (
  session_opened cookie csrf,
  record s {
    bootstrap_secret = none;
    active_session = some (record {
      cookie_token = cookie;
      csrf_token = csrf;
      generation = generation_of s.active_session + 1;
      expires_at = now + 86400000;
    });
  },
)

unfoldable pub boot_with :
    ℕ → Opaque → Opaque → Option Opaque → Option Opaque → State → BootReply × State
boot_with now cookie csrf given none s = (invalid_bootstrap_secret, s)
boot_with now cookie csrf given (some secret) s =
    if is_given given secret then open_session now cookie csrf s else (invalid_bootstrap_secret, s)

-- POST /api/bootstrap
unfoldable pub bootstrap : ℕ → Opaque → Opaque → Option Opaque → State → BootReply × State
bootstrap now cookie csrf given s = boot_with now cookie csrf given s.bootstrap_secret s
