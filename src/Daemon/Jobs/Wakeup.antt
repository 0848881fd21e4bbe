-- ===== src/Daemon/Jobs/Wakeup.antt =====
-- apps/local-daemon/src/tor-recovery.ts: bursts of control events are answered by one retry.
use crypto_pigeon.Prelude.{ℕ, ◌+◌, ◌-◌, ◌<◌, ◌≡◌, Bool, true, false, ◌||◌, arith, if◌then◌else◌}

-- `queued` counts the callbacks that `setImmediate` holds, `running` the retries under way.
pub record Wakeup : Type 0 where
  pub pending : Bool
  pub closed : Bool
  pub queued : ℕ
  pub running : ℕ

unfoldable pub wake : Wakeup → Wakeup
wake w = if w.closed || w.pending then w else record w { pending = true; queued = w.queued + 1 }

-- The callback of `setImmediate`, up to the promise of the retry.
unfoldable pub immediate : Wakeup → Wakeup
immediate w =
    if w.closed
    then record w { pending = false; queued = w.queued - 1 }
    else record w { queued = w.queued - 1; running = w.running + 1 }

-- The `finally` of the retry, whether it failed or not.
unfoldable pub settle : Wakeup → Wakeup
settle w = record w { pending = false; running = w.running - 1 }

unfoldable pub close : Wakeup → Wakeup
close w = record w { closed = true }

abbrev pub asleep : Wakeup
asleep = record { pending = false; closed = false; queued = 0; running = 0 }

-- What can happen; `n` counts the retries that have been started.
pub data Life : Wakeup → ℕ → Type 0 where
  born : Life asleep 0
  wakes : {w : Wakeup} {n : ℕ} → Life w n → Life (wake w) n
  runs :
      {w : Wakeup} {n : ℕ}
      → Life w n
      → 0 < w.queued
      → Life (immediate w) (if w.closed then n else n + 1)
  settles : {w : Wakeup} {n : ℕ} → Life w n → 0 < w.running → Life (settle w) n
  closes : {w : Wakeup} {n : ℕ} → Life w n → Life (close w) n

-- There is never more than one retry queued or under way, and another event is dropped only while
-- there is one.
pub Life-coalesced :
    {w : Wakeup} {n : ℕ} → Life w n → w.queued + w.running ≡ (if w.pending then 1 else 0)
unfolding wake immediate settle close
Life-coalesced born = ground arith
Life-coalesced (wakes {w} r) = ground (arith, Life-coalesced r)
Life-coalesced (runs {w} r q) = ground (arith, Life-coalesced r)
Life-coalesced (settles {w} r q) = ground (arith, Life-coalesced r)
Life-coalesced (closes {w} r) = ground (arith, Life-coalesced r)
