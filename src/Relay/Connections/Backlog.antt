-- ===== src/Relay/Connections/Backlog.antt =====
-- The signals that one connection has under way.
use crypto_pigeon.Prelude.{ℕ, suc, ◌+◌, ◌≤◌, ◌≡◌, true, some, arith}
use crypto_pigeon.Relay.Connections.{
  Connection, opened, Incoming, ping_frame, signal_frame, other_frame, malformed, Reaction,
  forwards, sends_pong, closes_backlog, ignores, reports_invalid, receive, forwarded, pong, ping,
}

abbrev started : Reaction → ℕ
started forwards = 1
started sends_pong = 0
started closes_backlog = 0
started ignores = 0
started reports_invalid = 0

-- The life of a connection, with the signals that it forwards at the moment.
pub data Life : Connection → ℕ → Type 0 where
  opens : Life opened 0
  receives :
      {c : Connection} {n : ℕ}
      → Life c n
      → (frame : Incoming) → Life (receive frame c).1 (n + started (receive frame c).0)
  ends : {c : Connection} {n : ℕ} → Life c (suc n) → Life (forwarded c) n
  pongs : {c : Connection} {n : ℕ} → Life c n → Life (pong c) n
  pings : {c c' : Connection} {n : ℕ} → Life c n → ping true c ≡ some c' → Life c' n

receive-bounded :
    (frame : Incoming) (c : Connection) (n : ℕ)
    → (c.pending_signals ≡ n) × (n ≤ 4)
    → ((receive frame c).1.pending_signals ≡ n + started (receive frame c).0)
      × (n + started (receive frame c).0 ≤ 4)
unfolding receive
receive-bounded ping_frame c n h = ground arith
receive-bounded signal_frame c n h = ground arith
receive-bounded other_frame c n h = ground arith
receive-bounded malformed c n h = ground arith

-- A connection counts its signals rightly, and never has more than four of them under way, whatever
-- frames it receives and whenever they end.
pub Life-bounded : {c : Connection} {n : ℕ} → Life c n → (c.pending_signals ≡ n) × (n ≤ 4)
unfolding forwarded pong ping
Life-bounded opens = ground arith
Life-bounded (receives {c} {n} r frame) = receive-bounded frame c n (Life-bounded r)
Life-bounded (ends {c} {n} r) = ground (arith, Life-bounded r)
Life-bounded (pongs {c} {n} r) = ground (arith, Life-bounded r)
Life-bounded (pings {c} {c'} {n} r e) = ground (arith, Life-bounded r)
