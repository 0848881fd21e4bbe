-- ===== src/Relay/Signaling/Window.antt =====
-- The table of `SignalBudget` as its operations see it: sorted times, one entry for each pair, and
-- what the window holds of a pair.
use crypto_pigeon.Prelude.{
  ℕ, ◌+◌, ◌≤◌, ◌≡◌, refl, Bool, true, false, ◌&&◌, ◌||◌, List, [], ◌∷◌, ◌++◌, arith, select, count,
  All, ◌==◌, if◌then◌else◌,
}
use crypto_pigeon.Prelude.Rows.Laws.{All-append}
use crypto_pigeon.Relay.Signaling.{
  Pair, Entry, has_key, recent, is_stale, times_of, known, expire, set_times,
}

abbrev pub IsSorted : List ℕ → Type 0
IsSorted [] = Unit
IsSorted (t ∷ ts) = All (λ u. t ≤ u) ts × IsSorted ts

abbrev pub same_key : Pair → Pair → Bool
same_key k j = k.0 == j.0 && k.1 == j.1

-- Each key stands once, and its times are in order and not in the future.
abbrev pub IsSound : ℕ → List Entry → Type 0
IsSound now [] = Unit
IsSound now (e ∷ es) =
    (known e.key es ≡ false) × IsSorted e.times × All (λ t. t ≤ now) e.times × IsSound now es

pub select-select :
    (now now' : ℕ) (ts : List ℕ)
    → now ≤ now'
    → select (recent now') (select (recent now) ts) ≡ select (recent now') ts
unfolding recent
select-select now now' [] h = refl
select-select now now' (t ∷ ts) h = ground (arith, select-select now now' ts h)

pub count-select_mono :
    (now now' : ℕ) (ts : List ℕ)
    → now ≤ now'
    → count (select (recent now') ts) ≤ count (select (recent now) ts)
unfolding recent
count-select_mono now now' [] h = omega arith
count-select_mono now now' (t ∷ ts) h = ground (arith, count-select_mono now now' ts h)

pub select-append :
    (p : ℕ → Bool) (xs ys : List ℕ) → select p (xs ++ ys) ≡ select p xs ++ select p ys
select-append p [] ys = refl
select-append p (x ∷ xs) ys = ground (arith, select-append p xs ys)

pub count-append : (xs ys : List ℕ) → count (xs ++ ys) ≡ count xs + count ys
count-append [] ys = omega arith
count-append (x ∷ xs) ys = omega (arith, count-append xs ys)

pub All-select : (P : ℕ → Type 0) (p : ℕ → Bool) (ts : List ℕ) → All P ts → All P (select p ts)
All-select P p [] h = tt
All-select P p (t ∷ ts) h = ground (arith, All-select P p ts)

pub select-IsSorted : (p : ℕ → Bool) (ts : List ℕ) → IsSorted ts → IsSorted (select p ts)
select-IsSorted p [] h = tt
select-IsSorted p (t ∷ ts) h =
    ground (arith, select-IsSorted p ts, All-select (λ (u : ℕ). t ≤ u) p ts)

pub append-IsSorted :
    (ts : List ℕ) (now : ℕ) → IsSorted ts → All (λ t. t ≤ now) ts → IsSorted (ts ++ now ∷ [])
append-IsSorted [] now s h = (tt, tt)
append-IsSorted (t ∷ ts) now (a, s) (h, hs) =
    (All-append (λ u. t ≤ u) ts (now ∷ []) a (h, tt), append-IsSorted ts now s hs)

All-le_mono :
    (now now' : ℕ) (ts : List ℕ) → now ≤ now' → All (λ t. t ≤ now) ts → All (λ t. t ≤ now') ts
All-le_mono now now' [] h k = tt
All-le_mono now now' (t ∷ ts) h k = ground (arith, All-le_mono now now' ts h)

-- In order, a stale last time makes all times stale.
is_stale-none :
    (now : ℕ) (ts : List ℕ) → IsSorted ts → is_stale now ts ≡ true → select (recent now) ts ≡ []
unfolding recent is_stale
is_stale-none now [] s h = refl
is_stale-none now (t ∷ []) s h = ground arith
is_stale-none now (t ∷ u ∷ ts) (a, s) h = ground (arith, is_stale-none now (u ∷ ts) s)

pub IsSound-mono : (now now' : ℕ) (es : List Entry) → now ≤ now' → IsSound now es → IsSound now' es
IsSound-mono now now' [] h k = tt
IsSound-mono now now' (e ∷ es) h (d, s, b, k) =
    (d, s, All-le_mono now now' e.times h b, IsSound-mono now now' es h k)

known-expire :
    (now : ℕ) (k : Pair) (es : List Entry) → known k es ≡ false → known k (expire now es) ≡ false
unfolding expire known
known-expire now k [] h = refl
known-expire now k (e ∷ es) h = ground (arith, known-expire now k es)

pub expire-IsSound : (now : ℕ) (es : List Entry) → IsSound now es → IsSound now (expire now es)
unfolding expire
expire-IsSound now [] h = tt
expire-IsSound now (e ∷ es) h = ground (arith, expire-IsSound now es, known-expire now e.key es)

times_of-unknown : (k : Pair) (es : List Entry) → known k es ≡ false → times_of k es ≡ []
unfolding known times_of
times_of-unknown k [] h = refl
times_of-unknown k (e ∷ es) h = ground (arith, times_of-unknown k es)

has_key-eq : (k : Pair) (e : Entry) → has_key k e ≡ true → e.key ≡ k
unfolding has_key
has_key-eq k e h = ground arith

-- Forgetting a pair loses no time that the window still holds.
pub select-expire :
    (now : ℕ) (k : Pair) (es : List Entry)
    → IsSound now es
    → select (recent now) (times_of k (expire now es)) ≡ select (recent now) (times_of k es)
unfolding expire times_of
select-expire now k [] h = refl
select-expire now k (e ∷ es) (d, s, b, h) = ground (
  arith,
  select-expire now k es h,
  is_stale-none now e.times s,
  has_key-eq k e,
  times_of-unknown k (expire now es),
  known-expire now k es,
  d,
)

pub times_of-set_times :
    (k j : Pair) (ts : List ℕ) (es : List Entry)
    → times_of k (set_times j ts es) ≡ (if same_key k j then ts else times_of k es)
unfolding times_of set_times has_key
times_of-set_times k j ts [] = ground arith
times_of-set_times k j ts (e ∷ es) = ground (arith, times_of-set_times k j ts es)

known-set_times :
    (k j : Pair) (ts : List ℕ) (es : List Entry)
    → known k (set_times j ts es) ≡ (same_key k j || known k es)
unfolding known set_times has_key
known-set_times k j ts [] = ground arith
known-set_times k j ts (e ∷ es) = ground (arith, known-set_times k j ts es)

same_key-has_key : (e : Entry) (j : Pair) → same_key e.key j ≡ has_key j e
unfolding has_key
same_key-has_key e j = refl

pub set_times-IsSound :
    (now : ℕ) (j : Pair) (ts : List ℕ) (es : List Entry)
    → IsSorted ts
    → All (λ t. t ≤ now) ts
    → IsSound now es
    → IsSound now (set_times j ts es)
unfolding set_times
set_times-IsSound now j ts [] s b h = (unfold known in refl, s, b, tt)
set_times-IsSound now j ts (e ∷ es) s b (d, s', b', h) = ground (
  arith,
  set_times-IsSound now j ts es s b h,
  known-set_times e.key j ts es,
  has_key-eq j e,
  same_key-has_key e j,
)

pub times_of-IsSorted :
    (now : ℕ) (k : Pair) (es : List Entry)
    → IsSound now es
    → IsSorted (times_of k es) × All (λ t. t ≤ now) (times_of k es)
unfolding times_of
times_of-IsSorted now k [] h = (tt, tt)
times_of-IsSorted now k (e ∷ es) h = ground (arith, times_of-IsSorted now k es)
