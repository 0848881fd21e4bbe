-- ===== src/Relay/Sockets.antt =====
-- apps/relay-server/src/ws-handler.ts: the table of open WebSocket connections and delivery to them.
use crypto_pigeon.Prelude.{
  ℕ, Bool, true, false, ◌&&◌, Option, none, some, List, [], ◌∷◌, ◌++◌, Text, delete, ◌==◌, leb,
  if◌then◌else◌,
}
use crypto_pigeon.Relay.Db.{Uuid}

-- A connection: its identity, whether it is open, what it buffers, and whether `send` throws on it.
pub record Socket : Type 0 where
  pub socket_id : ℕ
  pub open_state : Bool
  pub buffered : ℕ
  pub throws : Bool

-- The frames that the relay pushes.
pub data Frame : Type 0 where
  new_envelope : Frame
  encrypted_envelope : (envelope_id : Text) (sender mailbox : Uuid) (ciphertext : Text) → Frame
  replenish_warning : (one_time pq_one_time : ℕ) → Frame
  signal : (payload : ℕ) → Frame

-- `clients`, and the frames that were sent, the oldest first.
pub record Net : Type 0 where
  pub clients : List (Uuid × Socket)
  pub sent : List (Uuid × Frame)

unfoldable pub client_of : Uuid → List (Uuid × Socket) → Option Socket
client_of device [] = none
client_of device ((d, s) ∷ cs) = if d == device then some s else client_of device cs

-- A limit of `none` is `Infinity`.
unfoldable pub within : Option ℕ → ℕ → Bool
within none n = true
within (some limit) n = leb n limit

unfoldable pub deliverable : Option ℕ → Option Socket → Bool
unfolding within
deliverable limit none = false
deliverable limit (some ws) =
    if ws.open_state && within limit ws.buffered then (if ws.throws then false else true) else false

unfoldable pub notify_client : Uuid → Frame → Option ℕ → Net → Bool × Net
unfolding client_of deliverable
notify_client device frame limit net =
    if deliverable limit (client_of device net.clients)
    then (true, record net { sent = net.sent ++ (device, frame) ∷ [] })
    else (false, net)

-- `clients.set(deviceId, ws)`: a reconnection replaces the previous socket.
unfoldable pub register : Uuid → Socket → Net → Net
register device ws net = record net {
  clients = (device, ws) ∷ delete (λ c. c.0 == device) net.clients;
}

-- On 'close': only the socket that is still registered is removed.
unfoldable pub unregister : Uuid → Socket → Net → Net
unfolding client_of
unregister device ws net = elim (client_of device net.clients) [
  | none ↦ net
  | some current ↦
      if current.socket_id == ws.socket_id
      then record net { clients = delete (λ c. c.0 == device) net.clients }
      else net
]
