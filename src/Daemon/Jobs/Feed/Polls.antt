-- ===== src/Daemon/Jobs/Feed/Polls.antt =====
-- Long polls miss no change.
use crypto_pigeon.Prelude.{
  ℕ, ◌+◌, ◌≤◌, ◌≡◌, refl, Bool, true, false, List, [], ◌∷◌, All, arith, any, delete, ◌==◌, ==_refl,
  Bool-cases, inl, inr,
}
use crypto_pigeon.Prelude.Rows.Laws.{All-delete}
use crypto_pigeon.Relay.Db.{Opaque}
use crypto_pigeon.Daemon.Jobs.Feed.{
  Listener, Feed, finish, notify_all, publish, after, waiting, Run, start, publishes, calls, ends,
}

abbrev is_call : ℕ → Listener → Bool
is_call id l = l.call_id == id

abbrev IsCurrent : ℕ → List Listener → Type 0
IsCurrent revision ls = All (λ l. revision ≤ l.cursor) ls

-- Every call that waits is among `ls`.
abbrev IsAmong : List Listener → List Listener → Type 0
IsAmong ls waiting = All (λ l. any (λ (k : Listener). l.call_id == k.call_id) ls ≡ true) waiting

IsAmong-delete :
    (l : Listener) (ls ws : List Listener)
    → IsAmong (l ∷ ls) ws
    → IsAmong ls (delete (is_call l.call_id) ws)
IsAmong-delete l ls [] h = tt
IsAmong-delete l ls (w ∷ ws) h = ground (arith, IsAmong-delete l ls ws)

IsAmong-keep :
    (l : Listener) (ls ws : List Listener)
    → any (is_call l.call_id) ws ≡ false
    → IsAmong (l ∷ ls) ws
    → IsAmong ls ws
IsAmong-keep l ls [] e h = tt
IsAmong-keep l ls (w ∷ ws) e h = ground (arith, IsAmong-keep l ls ws)

IsAmong-finish :
    (l : Listener) (ls : List Listener) (f : Feed)
    → IsAmong (l ∷ ls) f.listeners
    → IsAmong ls (finish l.call_id f).listeners
unfolding finish
IsAmong-finish l ls f h = elim (Bool-cases (any (is_call l.call_id) f.listeners)) [
  | inl e ↦ rw e (IsAmong-delete l ls f.listeners h)
  | inr e ↦ rw e (IsAmong-keep l ls f.listeners e h)
]

IsAmong-nil : (ws : List Listener) → IsAmong [] ws → ws ≡ []
IsAmong-nil [] h = refl
IsAmong-nil (w ∷ ws) h = absurd (cc (h.0))

notify_all-nil :
    (ls : List Listener) (f : Feed) → IsAmong ls f.listeners → (notify_all ls f).listeners ≡ []
unfolding notify_all
notify_all-nil [] f h = IsAmong-nil f.listeners h
notify_all-nil (l ∷ ls) f h = notify_all-nil ls (finish l.call_id f) (IsAmong-finish l ls f h)

IsAmong-self_cons : (l : Listener) (ls ws : List Listener) → IsAmong ls ws → IsAmong (l ∷ ls) ws
IsAmong-self_cons l ls [] h = tt
IsAmong-self_cons l ls (w ∷ ws) h = ground (arith, IsAmong-self_cons l ls ws)

IsAmong-refl : (ls : List Listener) → IsAmong ls ls
IsAmong-refl [] = tt
IsAmong-refl (l ∷ ls) = (ground arith, IsAmong-self_cons l ls ls (IsAmong-refl ls))

publish-nil : (kind : Opaque) (f : Feed) → (publish kind f).listeners ≡ []
unfolding publish
publish-nil kind f =
    notify_all-nil f.listeners (record f { kind = kind; revision = f.revision + 1 })
      (IsAmong-refl f.listeners)

finish-IsCurrent :
    (id : ℕ) (f : Feed)
    → IsCurrent f.revision f.listeners
    → IsCurrent (finish id f).revision (finish id f).listeners
unfolding finish
finish-IsCurrent id f h = elim (Bool-cases (any (is_call id) f.listeners)) [
  | inl e ↦ rw e (All-delete (λ (l : Listener). f.revision ≤ l.cursor) (is_call id) f.listeners h)
  | inr e ↦ rw e h
]

delete_first :
    (id cursor r : ℕ) (ls : List Listener)
    → IsCurrent r ls
    → IsCurrent r (delete (is_call id) (record { call_id = id; cursor = cursor } ∷ ls))
delete_first id cursor r ls h =
    rw (==_refl id) (All-delete (λ (l : Listener). r ≤ l.cursor) (is_call id) ls h)

after-IsCurrent :
    (id cursor : ℕ) (aborted : Bool) (f : Feed)
    → IsCurrent f.revision f.listeners
    → IsCurrent (after id cursor aborted f).revision (after id cursor aborted f).listeners
unfolding after finish
after-IsCurrent id cursor aborted f h =
    ground (arith, delete_first id cursor f.revision f.listeners h)

-- A call that still waits, in whatever run of publications, calls, timeouts and aborts, waits with a
-- cursor that no published change has passed: no change is missed.
pub Run-IsCurrent :
    {first : Opaque} {f : Feed} {n : ℕ}
    → Run first f n
    → All (λ l. f.revision ≤ l.cursor) f.listeners
Run-IsCurrent start = tt
Run-IsCurrent (publishes {f} r kind) = rw (publish-nil kind f) tt
Run-IsCurrent (calls {f} {n} r cursor aborted) =
    after-IsCurrent n cursor aborted f (Run-IsCurrent r)
Run-IsCurrent (ends {f} r id) = finish-IsCurrent id f (Run-IsCurrent r)
