-- ===== src/Daemon/Jobs/Debounce.antt =====
-- apps/local-daemon/src/debounced-backup.ts: uploads of the backup, one at a time, after a quiet
-- period. An event is a call, the end of the timer, the end of an upload, or the vault being locked
-- or unlocked.
use crypto_pigeon.Prelude.{
  ℕ, ◌+◌, ◌-◌, ◌≤◌, ◌<◌, ◌≡◌, Bool, true, false, not, ◌&&◌, ◌||◌, arith, if◌then◌else◌,
}

-- `timer` is whether the timeout is pending, `active` whether an upload is; `unlocked` is what the
-- callback of that name answers.
pub record Backup : Type 0 where
  pub timer : Bool
  pub active : Bool
  pub dirty : Bool
  pub unlocked : Bool

unfoldable pub schedule : Backup → Backup
schedule b = if not b.unlocked then b else record b { dirty = true; timer = true }

unfoldable pub cancel : Backup → Backup
cancel b = record b { timer = false; dirty = false }

unfoldable pub is_pending : Backup → Bool
is_pending b = b.dirty || b.active

-- Whether `run`, which the timer calls, starts an upload.
unfoldable pub starts : Backup → Bool
starts b = b.unlocked && b.dirty && not b.active

-- `run` up to its `await`.
unfoldable pub fire : Backup → Backup
unfolding schedule
fire b =
    let b' = record b { timer = false } in
    if not b'.unlocked || not b'.dirty
    then b'
    else if b'.active
    then schedule b'
    else record b' { dirty = false; active = true }

-- `run` from its `await` on; an upload that failed is scheduled again.
unfoldable pub finish : Bool → Backup → Backup
unfolding schedule
finish true b = record b { active = false }
finish false b = record (if b.unlocked then schedule b else b) { active = false }

-- What can be seen from outside: the changes that were scheduled, how many of them the last upload
-- to begin and the last upload to succeed contain, and the uploads under way.
pub record Seen : Type 0 where
  pub changes : ℕ
  pub begun : ℕ
  pub saved : ℕ
  pub flying : ℕ

abbrev pub begin : Backup → Seen → Seen
begin b s = if starts b then record s { begun = s.changes; flying = s.flying + 1 } else s

abbrev pub settle : Bool → Seen → Seen
settle true s = record s { saved = s.begun; flying = s.flying - 1 }
settle false s = record s { flying = s.flying - 1 }

abbrev pub idle : Backup
idle = record { timer = false; active = false; dirty = false; unlocked = true }

abbrev pub nothing : Seen
nothing = record { changes = 0; begun = 0; saved = 0; flying = 0 }

-- The runs of one session, from a vault that is unlocked to the call of `cancel` or the lock.
pub data Session : Backup → Seen → Type 0 where
  opens : Session idle nothing
  schedules :
      {b : Backup} {s : Seen}
      → Session b s
      → Session (schedule b) (record s { changes = s.changes + 1 })
  fires : {b : Backup} {s : Seen} → Session b s → b.timer ≡ true → Session (fire b) (begin b s)
  finishes :
      {b : Backup} {s : Seen}
      → Session b s
      → (fine : Bool) → 0 < s.flying
      → Session (finish fine b) (settle fine s)

record Holds (b : Backup) (s : Seen) : Type 0 where
  open_vault : b.unlocked ≡ true
  armed : b.dirty ≡ true → b.timer ≡ true
  flight : s.flying ≡ (if b.active then 1 else 0)
  order : (s.saved ≤ s.begun) × (s.begun ≤ s.changes)
  kept : b.dirty ≡ false → s.begun ≡ s.changes
  done : b.dirty ≡ false → b.active ≡ false → s.saved ≡ s.begun

Holds-schedule :
    (b : Backup) (s : Seen) → Holds b s → Holds (schedule b) (record s { changes = s.changes + 1 })
unfolding schedule
Holds-schedule b s h = ground arith

Holds-fire : (b : Backup) (s : Seen) → Holds b s → b.timer ≡ true → Holds (fire b) (begin b s)
unfolding fire starts
Holds-fire b s h t = ground arith

Holds-finish :
    (fine : Bool) (b : Backup) (s : Seen)
    → Holds b s
    → 0 < s.flying
    → Holds (finish fine b) (settle fine s)
unfolding finish
Holds-finish true b s h f = ground arith
Holds-finish false b s h f = ground arith

Session-Holds : {b : Backup} {s : Seen} → Session b s → Holds b s
Session-Holds opens = ground arith
Session-Holds (schedules {b} {s} r) = Holds-schedule b s (Session-Holds r)
Session-Holds (fires {b} {s} r t) = Holds-fire b s (Session-Holds r) t
Session-Holds (finishes {b} {s} r fine f) = Holds-finish fine b s (Session-Holds r) f

-- What a session promises of the uploads.
pub record IsDurable (b : Backup) (s : Seen) : Type 0 where
  pub serial : s.flying ≤ 1
  pub saved : is_pending b ≡ false → s.saved ≡ s.changes
  pub moving : is_pending b ≡ true → (b.timer || b.active) ≡ true

-- In every session there is one upload at most under way. Where `pending` answers false, the last
-- successful upload contains every change; where it answers true, an upload is under way or the
-- timer that starts one is set.
pub Session-IsDurable : {b : Backup} {s : Seen} → Session b s → IsDurable b s
unfolding is_pending
Session-IsDurable r =
    let h = Session-Holds r in
    record { serial = ground arith; saved = λ e. ground arith; moving = λ e. ground arith }
