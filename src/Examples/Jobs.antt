-- ===== src/Examples/Jobs.antt =====
-- The background jobs at concrete inputs.
use crypto_pigeon.Prelude.{
  ℕ, ◌≤◌, ◌<◌, ◌≡◌, refl, true, false, Option, none, some, [], ◌∷◌, All, arith,
}
use crypto_pigeon.Daemon.Local.{Message, received}
use crypto_pigeon.Daemon.Jobs.Debounce.{
  Backup, schedule, fire, finish, Seen, begin, settle, idle, nothing, Session, opens, schedules,
  fires, finishes, IsDurable, Session-IsDurable, starts,
}
use crypto_pigeon.Daemon.Jobs.Feed.{publish, after, ready, Run, start, publishes, calls}
use crypto_pigeon.Daemon.Jobs.Feed.Polls.{Run-IsCurrent}
use crypto_pigeon.Daemon.Jobs.Expiry.{Disk, tick}
use crypto_pigeon.Daemon.Jobs.Expiry.Removal.{IsTidy, tick-IsTidy}

-- A change while an upload is under way, which then fails.
abbrev scheduled : Backup
scheduled = schedule idle

abbrev one_change : Seen
one_change = record nothing { changes = 1 }

abbrev two_changes : Seen
two_changes = record (begin scheduled one_change) { changes = 2 }

timer_set : scheduled.timer ≡ true
unfolding schedule
timer_set = refl

flies : 0 < two_changes.flying
unfolding schedule starts
flies = omega arith

session : Session (finish false (schedule (fire scheduled))) (settle false two_changes)
unfolding schedule starts
session = finishes (schedules (fires (schedules opens) timer_set)) false flies

Session-IsDurable_example :
    IsDurable (finish false (schedule (fire scheduled))) (settle false two_changes)
Session-IsDurable_example = Session-IsDurable session

-- A change, and a call that has seen it.
polls : Run 5 (after 0 1 false (publish 6 (ready 5))) 1
polls = calls (publishes start 6) 1 false

Run-IsCurrent_example :
    All
      (λ l. (after 0 1 false (publish 6 (ready 5))).revision ≤ l.cursor)
      (after 0 1 false (publish 6 (ready 5))).listeners
Run-IsCurrent_example = Run-IsCurrent polls

-- A message whose time has come, with its file, and one that stays.
abbrev note : ℕ → Option ℕ → Message
note id at = record {
  message_id = id;
  conversation_id = 80;
  is_sent = false;
  plaintext = 44;
  envelope = none;
  status = received;
  disappear_at = at;
}

abbrev disk : Disk
disk = record {
  messages = note 1 (some 500) ∷ note 2 none ∷ [];
  attachments = record { attachment_id = 9; message_id = 1; encrypted_local_path = some 77 } ∷ [];
  files = 77 ∷ 78 ∷ [];
}

tick-IsTidy_example : IsTidy (λ f. true) 600 disk (tick (λ f. true) false false true 600 disk)
tick-IsTidy_example = tick-IsTidy (λ f. true) false 600 disk
