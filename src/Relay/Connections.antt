-- ===== src/Relay/Connections.antt =====
-- apps/relay-server/src/ws-handler.ts: the handshake of a WebSocket, and what a connection does until
-- it closes. The URL and the headers are parsed; the clock and the database are arguments.
pub mod Admission
pub mod Handover
pub mod Backlog
use crypto_pigeon.Prelude.{
  ℕ, ◌+◌, ◌-◌, Bool, true, false, not, ◌&&◌, Option, none, some, List, [], ◌∷◌, Text, text_eq, find,
  any, ◌==◌, leb, if◌then◌else◌,
}
use crypto_pigeon.Relay.Db.{Uuid, Opaque, Session, Db}
use crypto_pigeon.Relay.Sockets.{Socket, Net, client_of, register, unregister}
use crypto_pigeon.Relay.Auth.{valid_session, instance_allowed}

-- An upgrade request: its path, the token of a `Bearer` header, that of the query, and the header
-- 'x-vault-instance'.
pub record Upgrade : Type 0 where
  pub url : Text
  pub bearer : Option Opaque
  pub query_token : Option Opaque
  pub vault_instance : Option Opaque

-- `url.split('?')[0]`
unfoldable pub before_query : Text → Text
before_query [] = []
before_query (c ∷ cs) = let rest = before_query cs in if c == b'?' then [] else c ∷ rest

abbrev pub ws_path : Text
ws_path = b'/' ∷ b'w' ∷ b's' ∷ []

unfoldable pub prefer : Option Opaque → Option Opaque → Option Opaque
prefer none query = query
prefer (some token) query = some token

unfoldable pub token_of : Upgrade → Option Opaque
unfolding prefer
token_of u = prefer u.bearer u.query_token

pub data Handshake : Type 0 where
  destroyed : Handshake
  upgraded : Uuid → Handshake

unfoldable pub with_session : (Opaque → Opaque) → Option Opaque → Option Session → Db → Handshake
with_session sha256 header none db = destroyed
with_session sha256 header (some s) db =
    if instance_allowed sha256 header (find (λ l. l.device_id == s.device_id) db.locks)
    then upgraded s.device_id
    else destroyed

unfoldable pub with_token : (Opaque → Opaque) → ℕ → Option Opaque → Option Opaque → Db → Handshake
unfolding with_session
with_token sha256 now none header db = destroyed
with_token sha256 now (some token) header db =
    with_session sha256 header (find (valid_session now token db) db.sessions) db

-- server.on('upgrade'), up to `handleUpgrade`.
unfoldable pub upgrade : (Opaque → Opaque) → ℕ → Upgrade → Db → Handshake
unfolding with_token token_of before_query
upgrade sha256 now u db =
    if text_eq (before_query u.url) ws_path
    then with_token sha256 now (token_of u) u.vault_instance db
    else destroyed

-- The new socket takes the place of the previous one, which is closed.
unfoldable pub connect : Uuid → Socket → Net → Option Socket × Net
unfolding client_of register
connect device ws net = (client_of device net.clients, register device ws net)

-- The query of `authorized` and of the ping timer. A missing header counts as '', which is no hash.
unfoldable pub is_active : (Opaque → Opaque) → ℕ → Opaque → Option Opaque → Db → Bool
is_active sha256 now token header db =
    any
      (λ s.
        valid_session now token db s
        && instance_allowed sha256 header (find (λ l. l.device_id == s.device_id) db.locks))
      db.sessions

unfoldable pub is_client : Socket → Option Socket → Bool
is_client ws none = false
is_client ws (some current) = current.socket_id == ws.socket_id

unfoldable pub is_authorized :
    (Opaque → Opaque) → ℕ → Opaque → Option Opaque → Uuid → Socket → Db → Net → Bool
unfolding is_active is_client
is_authorized sha256 now token header device ws db net =
    is_active sha256 now token header db
    && is_client ws (client_of device net.clients)
    && ws.open_state

-- The variables of one connection.
pub record Connection : Type 0 where
  pub is_alive : Bool
  pub pending_signals : ℕ

abbrev pub opened : Connection
opened = record { is_alive = true; pending_signals = 0 }

unfoldable pub pong : Connection → Connection
pong c = record c { is_alive = true }

-- The ping timer; `none` where it terminates the socket.
unfoldable pub ping : Bool → Connection → Option Connection
ping active c =
    if not active
    then none
    else if not c.is_alive
    then none
    else some (record c { is_alive = false })

pub data Incoming : Type 0 where
  ping_frame signal_frame other_frame malformed : Incoming

pub data Reaction : Type 0 where
  sends_pong forwards closes_backlog ignores reports_invalid : Reaction

-- ws.on('message') up to `forwardSignal`.
unfoldable pub receive : Incoming → Connection → Reaction × Connection
receive ping_frame c = (sends_pong, c)
receive signal_frame c =
    if leb 4 c.pending_signals
    then (closes_backlog, c)
    else (forwards, record c { pending_signals = c.pending_signals + 1 })
receive other_frame c = (ignores, c)
receive malformed c = (reports_invalid, c)

-- The `finally` of the signal.
unfoldable pub forwarded : Connection → Connection
forwarded c = record c { pending_signals = c.pending_signals - 1 }

-- ws.on('close')
unfoldable pub close : Uuid → Socket → Net → Net
unfolding unregister
close device ws net = unregister device ws net
