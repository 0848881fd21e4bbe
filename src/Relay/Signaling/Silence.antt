-- ===== src/Relay/Signaling/Silence.antt =====
-- What a signal that is not delivered leaves unchanged.
use crypto_pigeon.Prelude.{
  ◌≡◌, ◌≢◌, refl, Bool, true, false, not, ◌&&◌, Option, none, some, List, arith, ◌==◌, Bool-cases,
  inl, inr,
}
use crypto_pigeon.Relay.Db.{Uuid, User, Device, Db}
use crypto_pigeon.Relay.Sockets.{Net, notify_client}
use crypto_pigeon.Relay.Signaling.{
  Signal, delivered, Clock, Entry, take, sender_of, peer_of, push_signal, to_peer, within_budget,
  from_sender, forward_signal,
}

push_signal-silent :
    (clock : Clock) (s : Signal) (peer : Device) (net : Net)
    → (push_signal clock s peer net).0 ≢ delivered
    → (push_signal clock s peer net).1 ≡ net
unfolding push_signal notify_client
push_signal-silent clock s peer net h = ground arith

to_peer-silent :
    (clock : Clock) (second : Bool) (s : Signal) (o : Option Device) (net : Net)
    → (to_peer clock second s o net).0 ≢ delivered
    → (to_peer clock second s o net).1 ≡ net
unfolding to_peer
to_peer-silent clock second s none net h = refl
to_peer-silent clock false s (some peer) net h = refl
to_peer-silent clock true s (some peer) net h = push_signal-silent clock s peer net h

within_budget-silent :
    (clock : Clock) (second : Bool) (s : Signal) (sender : User) (b : Bool × List Entry) (db : Db)
    (net : Net)
    → (within_budget clock second s sender b db net).0 ≢ delivered
    → (within_budget clock second s sender b db net).2 ≡ net
unfolding within_budget
within_budget-silent clock second s sender (false, ps) db net h = refl
within_budget-silent clock second s sender (true, ps) db net h =
    to_peer-silent clock second s (peer_of s.to_uid sender.user_id db) net h

from_sender-silent :
    (clock : Clock) (second : Bool) (s : Signal) (o : Option User) (pairs : List Entry) (db : Db)
    (net : Net)
    → (from_sender clock second s o pairs db net).0 ≢ delivered
    → (from_sender clock second s o pairs db net).2 ≡ net
unfolding from_sender
from_sender-silent clock second s none pairs db net h = refl
from_sender-silent clock second s (some sender) pairs db net h =
    elim (Bool-cases (sender.public_uid == s.from_uid && not (s.from_uid == s.to_uid))) [
      | inl e ↦ rw e (
          within_budget-silent clock second s sender
            (take clock.budget_at s.from_uid s.to_uid pairs) db net (rw e at h))
      | inr e ↦ rw e refl
    ]

-- A signal with any other outcome sends nothing to any socket.
pub forward_signal-silent :
    (clock : Clock) (first second : Bool) (device : Uuid) (s : Signal) (pairs : List Entry)
    (db : Db) (net : Net)
    → (forward_signal clock first second device s pairs db net).0 ≢ delivered
    → (forward_signal clock first second device s pairs db net).2 ≡ net
unfolding forward_signal
forward_signal-silent clock false second device s pairs db net h = refl
forward_signal-silent clock true second device s pairs db net h =
    from_sender-silent clock second s (sender_of device db) pairs db net h
