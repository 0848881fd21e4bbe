-- ===== src/Daemon/Jobs/Feed.antt =====
-- apps/local-daemon/src/change-feed.ts: long polls of the local interface for changes.
pub mod Once
pub mod Polls
use crypto_pigeon.Prelude.{
  ℕ, suc, ◌+◌, ◌≤◌, ◌<◌, ◌≡◌, refl, Bool, true, false, ◌&&◌, ◌||◌, List, [], ◌∷◌, ◌++◌, All, arith,
  any, delete, select, count, map, ltb, ◌==◌, if◌then◌else◌,
}
use crypto_pigeon.Relay.Db.{Opaque}

-- A call of `after` that waits, with its number and what it closes over.
pub record Listener : Type 0 where
  pub call_id : ℕ
  pub cursor : ℕ

-- What a call resolved to.
pub record Answer : Type 0 where
  pub call_id : ℕ
  pub revision : ℕ
  pub kind : Opaque

pub record Feed : Type 0 where
  pub revision : ℕ
  pub kind : Opaque
  pub listeners : List Listener
  pub answers : List Answer

unfoldable pub answer : ℕ → Feed → Answer
answer id f = record { call_id = id; revision = f.revision; kind = f.kind }

-- `finish` of one call, by its timer or by `abort`.
unfoldable pub finish : ℕ → Feed → Feed
unfolding answer
finish id f =
    if any (λ l. l.call_id == id) f.listeners
    then record f {
      listeners = delete (λ l. l.call_id == id) f.listeners;
      answers = answer id f ∷ f.answers;
    }
    else f

-- Every listener is notified, and leaves the set by that.
unfoldable pub notify_all : List Listener → Feed → Feed
unfolding finish
notify_all [] f = f
notify_all (l ∷ ls) f = notify_all ls (finish l.call_id f)

unfoldable pub publish : Opaque → Feed → Feed
unfolding notify_all
publish kind f =
    let f' = record f { kind = kind; revision = f.revision + 1 } in notify_all f'.listeners f'

-- `after` with the number `id`; `aborted` is the state of its signal.
unfoldable pub after : ℕ → ℕ → Bool → Feed → Feed
unfolding finish
after id cursor aborted f =
    let f' = record f { listeners = record { call_id = id; cursor = cursor } ∷ f.listeners } in
    if ltb cursor f'.revision || aborted then finish id f' else f'

abbrev pub ready : Opaque → Feed
ready kind = record { revision = 0; kind = kind; listeners = []; answers = [] }

-- How often the call `id` was answered, and how often it waits.
abbrev pub answered : ℕ → Feed → ℕ
answered id f = count (select (λ (a : Answer). a.call_id == id) f.answers)

abbrev pub waiting : ℕ → Feed → ℕ
waiting id f = count (select (λ (l : Listener). l.call_id == id) f.listeners)

-- The runs of a feed, with the number of calls made so far; the calls are numbered in turn.
pub data Run (first : Opaque) : Feed → ℕ → Type 0 where
  start : Run first (ready first) 0
  publishes : {f : Feed} {n : ℕ} → Run first f n → (kind : Opaque) → Run first (publish kind f) n
  calls :
      {f : Feed} {n : ℕ}
      → Run first f n
      → (cursor : ℕ) (aborted : Bool) → Run first (after n cursor aborted f) (suc n)
  ends : {f : Feed} {n : ℕ} → Run first f n → (id : ℕ) → Run first (finish id f) n
