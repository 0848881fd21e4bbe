-- ===== src/Relay/Signaling/Limit.antt =====
-- The promise of `SignalBudget`, over every sequence of calls of `take` with a clock that does not
-- run backwards.
use crypto_pigeon.Prelude.{
  ℕ, ◌≤◌, ◌<◌, ◌≡◌, refl, ap, sym, ◌∙◌, Bool, true, false, ◌&&◌, List, [], ◌∷◌, ◌++◌, arith, select,
  count, All, if◌then◌else◌, Bool-cases, inl, inr,
}
use mathlib.Core.Path.{subst}
use crypto_pigeon.Prelude.Rows.Laws.{All-append}
use crypto_pigeon.Relay.Conversations.{ordered}
use crypto_pigeon.Relay.Signaling.{
  per_window, exhausted, Pair, Entry, recent, times_of, expire, set_times, take_recent, take_pair,
  take,
}
use crypto_pigeon.Relay.Signaling.Window.{
  IsSorted, same_key, IsSound, select-select, count-select_mono, select-append, count-append,
  All-select, select-IsSorted, append-IsSorted, IsSound-mono, expire-IsSound, select-expire,
  times_of-set_times, set_times-IsSound, times_of-IsSorted,
}

same_key-eq : (k j : Pair) → same_key k j ≡ true → k ≡ j
same_key-eq k j h = ground arith

same_key_refl : (k : Pair) → same_key k k ≡ true
same_key_refl k = ground arith

-- The accepted signals of the pair `k` after one more call.
unfoldable pub extend : Pair → ℕ → Pair → Bool → List ℕ → List ℕ
extend k now j accepted log = if accepted && same_key k j then log ++ now ∷ [] else log

-- A run: the time of its last call, the table, and the times of the accepted signals of `k`.
pub data Run (k : Pair) : ℕ → List Entry → List ℕ → Type 0 where
  start : Run k 0 [] []
  call :
      {now : ℕ} {pairs : List Entry} {log : List ℕ}
      → Run k now pairs log
      → (now' from to : ℕ) → now ≤ now'
      → Run k now'
          (take now' from to pairs).1
          (extend k now' (ordered from to) (take now' from to pairs).0 log)

pub record Holds (k : Pair) (now : ℕ) (pairs : List Entry) (log : List ℕ) : Type 0 where
  pub sound : IsSound now pairs
  pub same : select (recent now) (times_of k pairs) ≡ select (recent now) log
  pub few : count (select (recent now) log) ≤ per_window

-- The clock goes on and stale pairs are forgotten.
pub Holds-expire :
    (k : Pair) (now now' : ℕ) (pairs : List Entry) (log : List ℕ)
    → now ≤ now'
    → Holds k now pairs log
    → Holds k now' (expire now' pairs) log
Holds-expire k now now' pairs log le h =
    let sound = IsSound-mono now now' pairs le h.sound in
    record {
      sound = expire-IsSound now' pairs sound;
      same =
          select-expire now' k pairs sound
          ∙ sym (select-select now now' (times_of k pairs) le)
          ∙ ap (select (recent now')) h.same
          ∙ select-select now now' log le;
      few = omega (arith, count-select_mono now now' log le, h.few);
    }

recent_self : (now : ℕ) → select (recent now) (now ∷ []) ≡ now ∷ []
unfolding recent
recent_self now = ground arith

select-snoc :
    (now : ℕ) (ts : List ℕ)
    → select (recent now) (select (recent now) ts ++ now ∷ [])
      ≡ select (recent now) (ts ++ now ∷ [])
select-snoc now ts =
    select-append (recent now) (select (recent now) ts) (now ∷ [])
    ∙ ap (λ (xs : List ℕ). xs ++ select (recent now) (now ∷ []))
        (select-select now now ts (omega arith))
    ∙ sym (select-append (recent now) ts (now ∷ []))

kept : ℕ → Pair → List Entry → List ℕ
kept now j pairs = select (recent now) (times_of j pairs)

kept-IsSorted :
    (now : ℕ) (j : Pair) (pairs : List Entry)
    → IsSound now pairs
    → IsSorted (kept now j pairs ++ now ∷ []) × All (λ t. t ≤ now) (kept now j pairs ++ now ∷ [])
unfolding kept
kept-IsSorted now j pairs sound =
    let (sorted, past) = times_of-IsSorted now j pairs sound in
    let kept_past = All-select (λ t. t ≤ now) (recent now) (times_of j pairs) past in
    (
      append-IsSorted (kept now j pairs) now
          (select-IsSorted (recent now) (times_of j pairs) sorted) kept_past,
      All-append (λ t. t ≤ now) (kept now j pairs) (now ∷ []) kept_past (omega arith, tt),
    )

set_kept-IsSound :
    (now : ℕ) (j : Pair) (pairs : List Entry)
    → IsSound now pairs
    → IsSound now (set_times j (kept now j pairs ++ now ∷ []) pairs)
set_kept-IsSound now j pairs sound =
    let (sorted, past) = kept-IsSorted now j pairs sound in
    set_times-IsSound now j (kept now j pairs ++ now ∷ []) pairs sorted past sound

module _ (k : Pair) (now : ℕ) (pairs : List Entry) (log : List ℕ) (h : Holds k now pairs log) where
  times_of-set_self :
      times_of k (set_times k (kept now k pairs ++ now ∷ []) pairs) ≡ kept now k pairs ++ now ∷ []
  times_of-set_self = times_of-set_times k k (kept now k pairs ++ now ∷ []) pairs ∙ ground arith

  same_after :
      select (recent now) (kept now k pairs ++ now ∷ []) ≡ select (recent now) (log ++ now ∷ [])
  unfolding kept
  same_after =
      ap (λ (xs : List ℕ). select (recent now) (xs ++ now ∷ [])) h.same ∙ select-snoc now log

  -- An accepted call for `k` itself appends its time on both sides.
  Holds-accept_self :
      count (kept now k pairs) < per_window
      → Holds k now (set_times k (kept now k pairs ++ now ∷ []) pairs) (log ++ now ∷ [])
  unfolding kept
  Holds-accept_self room = record {
    sound = set_kept-IsSound now k pairs h.sound;
    same = ap (select (recent now)) times_of-set_self ∙ same_after;
    few = omega (
      arith,
      room,
      ap count h.same,
      ap count (select-append (recent now) log (now ∷ [])),
      ap count (recent_self now),
      count-append (select (recent now) log) (select (recent now) (now ∷ [])),
    );
  }

  Holds-accept_other :
      (j : Pair)
      → same_key k j ≡ false
      → Holds k now (set_times j (kept now j pairs ++ now ∷ []) pairs) log
  Holds-accept_other j ne = record {
    sound = set_kept-IsSound now j pairs h.sound;
    same =
        ap (select (recent now))
          (times_of-set_times k j (kept now j pairs ++ now ∷ []) pairs ∙ ground arith)
        ∙ h.same;
    few = h.few;
  }

  Holds-accept :
      (j : Pair)
      → count (kept now j pairs) < per_window
      → Holds k now (set_times j (kept now j pairs ++ now ∷ []) pairs) (extend k now j true log)
  unfolding extend
  Holds-accept j room = elim (Bool-cases (same_key k j)) [
    | inl e ↦
        subst
          (λ (i : Pair).
            Holds k now (set_times i (kept now i pairs ++ now ∷ []) pairs)
              (extend k now i true log))
          (same_key-eq k j e)
          (rw (same_key_refl k) (Holds-accept_self (rw (same_key-eq k j e) room)))
    | inr e ↦ rw e (Holds-accept_other j e)
  ]

  exhausted-room :
      (j : Pair)
      → exhausted j (kept now j pairs) pairs ≡ false
      → count (kept now j pairs) < per_window
  unfolding exhausted
  exhausted-room j e = ground arith

  Holds-take_pair :
      (j : Pair)
      → Holds k now (take_pair now j pairs).1 (extend k now j (take_pair now j pairs).0 log)
  unfolding take_pair take_recent kept extend
  Holds-take_pair j = elim (Bool-cases (exhausted j (kept now j pairs) pairs)) [
    | inl e ↦ rw e h
    | inr e ↦ rw e (Holds-accept j (exhausted-room j e))
  ]

pub Run-Holds :
    {k : Pair} {now : ℕ} {pairs : List Entry} {log : List ℕ}
    → Run k now pairs log
    → Holds k now pairs log
unfolding take
Run-Holds start = record { sound = tt; same = unfold times_of in refl; few = omega arith }
Run-Holds {k} (call {now} {pairs} {log} r now' from to le) =
    Holds-take_pair k now' (expire now' pairs) log
      (Holds-expire k now now' pairs log le (Run-Holds r)) (ordered from to)

-- In every run, at the time of any call or later, at most thirty signals of a pair, counted over both
-- directions, were accepted in the sixty seconds before.
pub Run-limit :
    {k : Pair} {now : ℕ} {pairs : List Entry} {log : List ℕ}
    → Run k now pairs log
    → (later : ℕ) → now ≤ later
    → count (select (recent later) log) ≤ per_window
Run-limit {now = now} {log = log} r later le =
    omega (arith, count-select_mono now later log le, (Run-Holds r).few)
