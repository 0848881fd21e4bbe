-- ===== src/Relay/Signaling/Room.antt =====
-- The room that `SignalBudget` keeps: for signals within the limit, and for pairs in its table.
use crypto_pigeon.Prelude.{
  ℕ, ◌≤◌, ◌<◌, ◌≡◌, refl, Bool, true, List, [], ◌∷◌, ◌++◌, arith, suc, delete, select, delete, suc,
  count, if◌then◌else◌,
}
use crypto_pigeon.Relay.Conversations.{ordered}
use crypto_pigeon.Relay.Signaling.{
  per_window, max_pairs, exhausted, is_stale, Pair, Entry, recent, times_of, known, expire,
  set_times, take_recent, take_pair, take,
}
use crypto_pigeon.Relay.Signaling.Limit.{Run, start, call, Holds-expire, Run-Holds}

count-delete : (p : Entry → Bool) (es : List Entry) → count (delete p es) ≤ count es
count-delete p [] = omega arith
count-delete p (e ∷ es) = ground (arith, count-delete p es)

count-set_times :
    (j : Pair) (ts : List ℕ) (es : List Entry)
    → count (set_times j ts es) ≡ (if known j es then count es else suc (count es))
unfolding set_times known
count-set_times j ts [] = refl
count-set_times j ts (e ∷ es) = ground (arith, count-set_times j ts es)

take_pair-size :
    (now : ℕ) (j : Pair) (es : List Entry)
    → count es ≤ max_pairs
    → count (take_pair now j es).1 ≤ max_pairs
unfolding take_pair take_recent exhausted
take_pair-size now j es h =
    ground (arith, count-set_times j (select (recent now) (times_of j es) ++ now ∷ []) es)

-- The table never holds more than ten thousand pairs.
pub Run-size :
    {k : Pair} {now : ℕ} {pairs : List Entry} {log : List ℕ}
    → Run k now pairs log
    → count pairs ≤ max_pairs
unfolding take expire
Run-size start = omega arith
Run-size (call {now} {pairs} {log} r now' from to le) =
    take_pair-size now' (ordered from to) (delete (λ e. is_stale now' e.times) pairs)
      (omega (arith, count-delete (λ (e : Entry). is_stale now' e.times) pairs, Run-size r))

take_pair_open :
    (now : ℕ) (j : Pair) (es : List Entry)
    → count (select (recent now) (times_of j es)) < per_window
    → count es < max_pairs
    → (take_pair now j es).0 ≡ true
unfolding take_pair take_recent exhausted
take_pair_open now j es few room = ground arith

-- A signal of a pair with fewer than thirty accepted signals in the last sixty seconds is accepted,
-- if the table has room for one more pair.
pub Run-accepts :
    {now : ℕ} {pairs : List Entry} {log : List ℕ} (from to : ℕ)
    → Run (ordered from to) now pairs log
    → (now' : ℕ) → now ≤ now'
    → count (select (recent now') log) < per_window
    → count pairs < max_pairs
    → (take now' from to pairs).0 ≡ true
unfolding take
Run-accepts {now} {pairs} {log} from to r now' le few room =
    take_pair_open now' (ordered from to) (expire now' pairs)
      (rw (Holds-expire (ordered from to) now now' pairs log le (Run-Holds r)).same few)
      (unfold expire in omega (arith, count-delete (λ (e : Entry). is_stale now' e.times) pairs))
