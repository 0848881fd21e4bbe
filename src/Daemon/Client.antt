-- ===== src/Daemon/Client.antt =====
-- apps/local-daemon/src/relay-client.ts: the relay's session token, the logins that fetch it, and the
-- socket that pushes envelopes. A login is a promise: it begins and ends in two steps, and between
-- them anything else can happen. What the relay answers is an argument; the copy of the token in
-- `relay_auth` is left out.
pub mod Events
pub mod Session
use crypto_pigeon.Prelude.{
  ◌>>=◌, ℕ, zero, suc, ◌+◌, Bool, true, false, not, ◌&&◌, ◌||◌, Option, none, some, List, [], ◌∷◌,
  ◌++◌, count, limit, ◌==◌, ltb, if◌then◌else◌,
}
use crypto_pigeon.Relay.Db.{Opaque}

-- A login under way: the generation that it began in, and a number.
pub record Login : Type 0 where
  pub generation : ℕ
  pub number : ℕ

pub record Client : Type 0 where
  pub cached_token : Option Opaque
  pub expires_at : ℕ
  pub refreshing : Option Login
  pub generation : ℕ
  pub pushed : List Opaque
  pub watching : Bool
  pub socket : Option ℕ

pub data Token : Type 0 where
  ready : (token : Opaque) → Token
  waits : (login : Login) → Token
  begins : (login : Login) → Token

unfoldable pub usable : ℕ → Client → Option Opaque
usable now c = do token ← c.cached_token; if ltb (now + 5000) c.expires_at then some token else none

unfoldable pub is_login : Login → Login → Bool
is_login l m = l.generation == m.generation && l.number == m.number

unfoldable pub refresh : ℕ → Option Login → Client → Token × Client
refresh number (some l) c = (waits l, c)
refresh number none c =
    let l : Login = record { generation = c.generation; number = number } in
    (begins l, record c { refreshing = some l })

unfoldable pub token_or : ℕ → Option Opaque → Client → Token × Client
unfolding refresh
token_or number (some token) c = (ready token, c)
token_or number none c = refresh number c.refreshing c

-- getToken
unfoldable pub get_token : ℕ → ℕ → Client → Token × Client
unfolding usable token_or
get_token now number c = token_or number (usable now c) c

-- The end of authenticateFresh; none is a request that failed.
unfoldable pub install : Login → Bool → Option (Opaque × ℕ) → Client → Client
install l locked none c = c
install l locked (some (token, expires_at)) c =
    if locked || not (l.generation == c.generation)
    then c
    else record c { cached_token = some token; expires_at = expires_at }

-- The `finally` of getToken, on `refreshing`.
unfoldable pub settled : Login → Option Login → Option Login
unfolding is_login
settled l none = none
settled l (some m) = if is_login l m then none else some m

unfoldable pub finish_login : Login → Bool → Option (Opaque × ℕ) → Client → Client
unfolding install settled
finish_login l locked reply c =
    let c' = install l locked reply c in record c' { refreshing = settled l c'.refreshing }

unfoldable pub accept_session : Opaque → ℕ → Client → Client
accept_session token expires_at c = record c { cached_token = some token; expires_at = expires_at }

unfoldable pub has_token : Opaque → Option Opaque → Bool
has_token token none = false
has_token token (some t) = t == token

-- A reply 401 to a request with `token`, in `request` and in `prepareRequest`.
unfoldable pub refuse_token : Opaque → Client → Client
unfolding has_token
refuse_token token c =
    if has_token token c.cached_token then record c { cached_token = none; expires_at = 0 } else c

unfoldable pub stop_events : Client → Client
stop_events c = record c { watching = false; socket = none }

unfoldable pub clear_session : Client → Client
unfolding stop_events
clear_session c = record (stop_events c) {
  pushed = [];
  generation = suc c.generation;
  cached_token = none;
  expires_at = 0;
  refreshing = none;
}

-- Whether the request of `prepareRequest` is sent.
unfoldable pub is_prepared : ℕ → Client → Bool
is_prepared generation c = generation == c.generation

unfoldable pub start_watching : Bool → Client → Client
start_watching is_direct c = if is_direct || c.watching then c else record c { watching = true }

-- The socket that `connect` opens once it has a token.
unfoldable pub open_socket : ℕ → Bool → Client → Client
open_socket ws locked c = if not c.watching || locked then c else record c { socket = some ws }

unfoldable pub is_socket : ℕ → Option ℕ → Bool
is_socket ws none = false
is_socket ws (some current) = current == ws

-- A message ENCRYPTED_ENVELOPE on the socket `ws`.
unfoldable pub push_envelope : ℕ → Opaque → Client → Client
unfolding is_socket
push_envelope ws envelope c =
    if is_socket ws c.socket && ltb (count c.pushed) 256
    then record c { pushed = c.pushed ++ envelope ∷ [] }
    else c

unfoldable pub close_socket : ℕ → Client → Client
unfolding is_socket
close_socket ws c = if is_socket ws c.socket then record c { socket = none } else c

-- `splice(0, 256)`
abbrev pub beyond : ℕ → List Opaque → List Opaque
beyond zero es = es
beyond (suc n) [] = []
beyond (suc n) (e ∷ es) = beyond n es

unfoldable pub take_pushed_envelopes : Client → List Opaque × Client
take_pushed_envelopes c = (limit 256 c.pushed, record c { pushed = beyond 256 c.pushed })
