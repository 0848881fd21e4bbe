-- ===== src/Relay/Signaling.antt =====
-- apps/relay-server/src/signaling.ts: the rolling budget of WebRTC signals of each pair of accounts,
-- and the forwarding of a signal to the peer's open socket.
pub mod Window
pub mod Limit
pub mod Room
pub mod Forward
pub mod Silence
use crypto_pigeon.Prelude.{
  ℕ, suc, ◌+◌, ◌-◌, ◌*◌, Bool, true, false, not, ◌&&◌, ◌||◌, Option, none, some, List, [], ◌∷◌,
  ◌++◌, find, any, select, delete, count, ◌==◌, ltb, leb, if◌then◌else◌,
}
use crypto_pigeon.Relay.Db.{Uuid, Opaque, User, Device, Db}
use crypto_pigeon.Relay.Sockets.{Net, signal, notify_client}
use crypto_pigeon.Relay.Conversations.{user_active, ordered, permitted}

abbrev pub window : ℕ
window = 60000

abbrev pub per_window : ℕ
per_window = 30

abbrev pub max_pairs : ℕ
max_pairs = 10000

-- The part of a signal that the relay reads.
pub record Signal : Type 0 where
  pub from_uid : Opaque
  pub to_uid : Opaque
  pub payload : ℕ
  pub ttl_ms : ℕ

pub data Outcome : Type 0 where
  delivered unauthorized sender_mismatch rate_limited contact_not_approved expired peer_offline :
      Outcome

-- A key `[from, to].sort().join(':')`, and the times of the signals of its pair, the oldest first.
abbrev pub Pair : Type 0
Pair = ℕ × ℕ

pub record Entry : Type 0 where
  pub key : Pair
  pub times : List ℕ

unfoldable pub has_key : Pair → Entry → Bool
has_key k e = e.key.0 == k.0 && e.key.1 == k.1

-- `time > now - 60000`
unfoldable pub recent : ℕ → ℕ → Bool
recent now time = ltb now (time + window)

-- `times[times.length - 1] <= now - 60000`; with no time the comparison is false.
unfoldable pub is_stale : ℕ → List ℕ → Bool
is_stale now [] = false
is_stale now (t ∷ []) = leb (t + window) now
is_stale now (t ∷ u ∷ ts) = is_stale now (u ∷ ts)

unfoldable pub times_of : Pair → List Entry → List ℕ
times_of k [] = []
times_of k (e ∷ es) = if has_key k e then e.times else times_of k es

unfoldable pub known : Pair → List Entry → Bool
known k [] = false
known k (e ∷ es) = has_key k e || known k es

-- The first loop of `take`: pairs whose last signal is outside the window are forgotten.
unfoldable pub expire : ℕ → List Entry → List Entry
expire now pairs = delete (λ e. is_stale now e.times) pairs

-- `this.pairs.set(key, times)`
unfoldable pub set_times : Pair → List ℕ → List Entry → List Entry
set_times k ts [] = record { key = k; times = ts } ∷ []
set_times k ts (e ∷ es) =
    if has_key k e then record { key = k; times = ts } ∷ es else e ∷ set_times k ts es

-- Thirty signals in the window, or a new pair when the table is full.
unfoldable pub exhausted : Pair → List ℕ → List Entry → Bool
exhausted k times pairs =
    leb per_window (count times) || (not (known k pairs) && leb max_pairs (count pairs))

-- `take` after the expiry, on the recent times of the pair.
unfoldable pub take_recent : ℕ → Pair → List ℕ → List Entry → Bool × List Entry
take_recent now k times pairs =
    if exhausted k times pairs
    then (false, pairs)
    else (true, set_times k (times ++ now ∷ []) pairs)

unfoldable pub take_pair : ℕ → Pair → List Entry → Bool × List Entry
take_pair now k pairs = take_recent now k (select (recent now) (times_of k pairs)) pairs

-- SignalBudget.take
unfoldable pub take : ℕ → ℕ → ℕ → List Entry → Bool × List Entry
take now from to pairs = take_pair now (ordered from to) (expire now pairs)

unfoldable pub is_device : Uuid → Db → Device → Bool
is_device device db d = d.device_id == device && not d.revoked && user_active d.user_id db.users

unfoldable pub active_named : Option Device → List User → Option User
active_named none users = none
active_named (some d) users = find (λ u. u.user_id == d.user_id && not u.revoked) users

-- The sender's row: the active user of an active device.
unfoldable pub sender_of : Uuid → Db → Option User
unfolding is_device active_named
sender_of device db = active_named (find (is_device device db) db.devices) db.users

unfoldable pub is_peer : Opaque → Uuid → Db → User → Bool
is_peer to sender db u =
    u.public_uid == to
    && not u.revoked
    && permitted u.user_id sender db.permissions
    && any (λ d. d.user_id == u.user_id && not d.revoked) db.devices

unfoldable pub device_of : Option User → List Device → Option Device
device_of none devices = none
device_of (some u) devices = find (λ d. d.user_id == u.user_id && not d.revoked) devices

-- The peer's row: the active device of the active account `to`, if the two users are approved.
unfoldable pub peer_of : Opaque → Uuid → Db → Option Device
unfolding is_peer device_of
peer_of to sender db = device_of (find (is_peer to sender db) db.users) db.devices

-- When the request came in, when the budget is asked, and when the signal is sent.
pub record Clock : Type 0 where
  pub received_at : ℕ
  pub budget_at : ℕ
  pub sent_at : ℕ

-- After the second authorization check: too late, or to the peer's socket.
unfoldable pub push_signal : Clock → Signal → Device → Net → Outcome × Net
push_signal clock s peer net =
    if leb s.ttl_ms (clock.sent_at - clock.received_at)
    then (expired, net)
    else (let (ok, net') =
          notify_client peer.device_id (signal s.payload) (some (256 * 1024)) net in
        (if ok then delivered else peer_offline, net'))

unfoldable pub to_peer : Clock → Bool → Signal → Option Device → Net → Outcome × Net
to_peer clock authorized s none net = (contact_not_approved, net)
to_peer clock false s (some peer) net = (unauthorized, net)
to_peer clock true s (some peer) net = push_signal clock s peer net

unfoldable pub within_budget :
    Clock → Bool → Signal → User → Bool × List Entry → Db → Net → Outcome × List Entry × Net
within_budget clock authorized s sender (false, pairs) db net = (rate_limited, pairs, net)
within_budget clock authorized s sender (true, pairs) db net =
    let (o, net') = to_peer clock authorized s (peer_of s.to_uid sender.user_id db) net in
    (o, pairs, net')

unfoldable pub from_sender :
    Clock → Bool → Signal → Option User → List Entry → Db → Net → Outcome × List Entry × Net
from_sender clock authorized s none pairs db net = (sender_mismatch, pairs, net)
from_sender clock authorized s (some sender) pairs db net =
    if sender.public_uid == s.from_uid && not (s.from_uid == s.to_uid)
    then within_budget clock authorized s sender (take clock.budget_at s.from_uid s.to_uid pairs) db
        net
    else (sender_mismatch, pairs, net)

-- forwardSignal; `first` and `second` are the answers of `stillAuthorized` before and after the
-- look-ups.
unfoldable pub forward_signal :
    Clock
    → (first second : Bool) → Uuid
    → Signal
    → List Entry
    → Db
    → Net
    → Outcome × List Entry × Net
forward_signal clock false second device s pairs db net = (unauthorized, pairs, net)
forward_signal clock true second device s pairs db net =
    from_sender clock second s (sender_of device db) pairs db net

-- The status of POST /api/signal.
unfoldable pub http_code : Outcome → ℕ
http_code rate_limited = 429
http_code sender_mismatch = 403
http_code contact_not_approved = 403
http_code _ = 200
