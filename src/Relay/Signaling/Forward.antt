-- ===== src/Relay/Signaling/Forward.antt =====
-- Which signals reach a socket.
use crypto_pigeon.Prelude.{
  ℕ, ◌-◌, ◌<◌, ◌≡◌, ◌≢◌, refl, ap, Bool, true, false, not, ◌&&◌, Option, none, some, List, [], ◌∷◌,
  ◌++◌, arith, find, ◌==◌, Bool-cases, inl, inr,
}
use crypto_pigeon.Prelude.Rows.Laws.{find-holds}
use crypto_pigeon.Relay.Db.{Uuid, User, Device, Db}
use crypto_pigeon.Relay.Sockets.{Net, signal, notify_client}
use crypto_pigeon.Relay.Conversations.{permitted}
use crypto_pigeon.Relay.Signaling.{
  Signal, delivered, Clock, Entry, take, sender_of, is_peer, device_of, peer_of, push_signal,
  to_peer, within_budget, from_sender, forward_signal,
}

-- What a delivered signal has established.
pub record IsDelivered (clock : Clock) (first second : Bool) (device : Uuid) (s : Signal)
    (pairs : List Entry) (db : Db) (before after : Net) : Type 0 where
  pub sender : User
  pub peer_user : User
  pub peer : Device
  pub was_authorized : first ≡ true
  pub still_authorized : second ≡ true
  pub sender_row : sender_of device db ≡ some sender
  pub sender_uid : sender.public_uid ≡ s.from_uid
  pub not_self : s.from_uid ≢ s.to_uid
  pub in_budget : (take clock.budget_at s.from_uid s.to_uid pairs).0 ≡ true
  pub peer_uid : peer_user.public_uid ≡ s.to_uid
  pub peer_active : peer_user.revoked ≡ false
  pub device_owner : peer.user_id ≡ peer_user.user_id
  pub device_active : peer.revoked ≡ false
  pub approved : permitted peer_user.user_id sender.user_id db.permissions ≡ true
  pub in_time : clock.sent_at - clock.received_at < s.ttl_ms
  pub only_frame : after.sent ≡ before.sent ++ (peer.device_id, signal s.payload) ∷ []

push_signal-delivered :
    (clock : Clock) (s : Signal) (peer : Device) (net : Net)
    → (push_signal clock s peer net).0 ≡ delivered
    → (clock.sent_at - clock.received_at < s.ttl_ms)
      × ((push_signal clock s peer net).1.sent
          ≡ net.sent ++ (peer.device_id, signal s.payload) ∷ [])
unfolding push_signal notify_client
push_signal-delivered clock s peer net h = ground arith

is_peer-facts :
    (to sender : ℕ) (db : Db) (u : User)
    → is_peer to sender db u ≡ true
    → (u.public_uid ≡ to) × (u.revoked ≡ false) × (permitted u.user_id sender db.permissions ≡ true)
unfolding is_peer
is_peer-facts to sender db u h = ground arith

device_of-facts :
    (u : User) (devices : List Device) (d : Device)
    → device_of (some u) devices ≡ some d
    → (d.user_id ≡ u.user_id) × (d.revoked ≡ false)
unfolding device_of
device_of-facts u devices d e =
    active_owned u d (find-holds (λ d. d.user_id == u.user_id && not d.revoked) devices d e)
  where
    active_owned :
        (u : User) (d : Device)
        → (d.user_id == u.user_id && not d.revoked) ≡ true
        → (d.user_id ≡ u.user_id) × (d.revoked ≡ false)
    active_owned u d h = ground arith

record IsPeer (to sender : ℕ) (db : Db) (peer : Device) : Type 0 where
  user : User
  uid : user.public_uid ≡ to
  active : user.revoked ≡ false
  approved : permitted user.user_id sender db.permissions ≡ true
  owner : peer.user_id ≡ user.user_id
  device_active : peer.revoked ≡ false

IsPeer-by_user :
    (to sender : ℕ) (db : Db) (peer : Device) (o : Option User)
    → find (is_peer to sender db) db.users ≡ o
    → device_of o db.devices ≡ some peer
    → IsPeer to sender db peer
unfolding device_of
IsPeer-by_user to sender db peer none f h = absurd (cc h)
IsPeer-by_user to sender db peer (some u) f h =
    let (uid, active, approved) =
      is_peer-facts to sender db u (find-holds (is_peer to sender db) db.users u f) in
    let (owner, device_active) = device_of-facts u db.devices peer h in
    record {
      user = u;
      uid = uid;
      active = active;
      approved = approved;
      owner = owner;
      device_active = device_active;
    }

peer_of-IsPeer :
    (to sender : ℕ) (db : Db) (peer : Device)
    → peer_of to sender db ≡ some peer
    → IsPeer to sender db peer
unfolding peer_of
peer_of-IsPeer to sender db peer e =
    IsPeer-by_user to sender db peer (find (is_peer to sender db) db.users) refl e

to_peer-delivered :
    (clock : Clock) (second : Bool) (s : Signal) (o : Option Device) (net : Net)
    → (to_peer clock second s o net).0 ≡ delivered
    → (peer : Device) × (o ≡ some peer)
      × (second ≡ true)
      × (clock.sent_at - clock.received_at < s.ttl_ms)
      × ((to_peer clock second s o net).1.sent
          ≡ net.sent ++ (peer.device_id, signal s.payload) ∷ [])
unfolding to_peer
to_peer-delivered clock second s none net h = absurd (cc h)
to_peer-delivered clock false s (some peer) net h = absurd (cc h)
to_peer-delivered clock true s (some peer) net h =
    let (in_time, frame) = push_signal-delivered clock s peer net h in
    (peer, refl, refl, in_time, frame)

module _ (clock : Clock) (second : Bool) (device : Uuid) (s : Signal) (pairs : List Entry) (db : Db)
    (net : Net) where
  within_budget-IsDelivered :
      (sender : User) (b : Bool × List Entry)
      → sender_of device db ≡ some sender
      → sender.public_uid ≡ s.from_uid
      → s.from_uid ≢ s.to_uid
      → take clock.budget_at s.from_uid s.to_uid pairs ≡ b
      → (within_budget clock second s sender b db net).0 ≡ delivered
      → IsDelivered clock true second device s pairs db net
          (within_budget clock second s sender b db net).2
  unfolding within_budget
  within_budget-IsDelivered sender (false, ps) row uid ne e h = absurd (cc h)
  within_budget-IsDelivered sender (true, ps) row uid ne e h =
      let (peer, found, again, in_time, frame) =
        to_peer-delivered clock second s (peer_of s.to_uid sender.user_id db) net h in
      let p = peer_of-IsPeer s.to_uid sender.user_id db peer found in
      record {
        sender = sender;
        peer_user = p.user;
        peer = peer;
        was_authorized = refl;
        still_authorized = again;
        sender_row = row;
        sender_uid = uid;
        not_self = ne;
        in_budget = ap (λ (r : Bool × List Entry). r.0) e;
        peer_uid = p.uid;
        peer_active = p.active;
        device_owner = p.owner;
        device_active = p.device_active;
        approved = p.approved;
        in_time = in_time;
        only_frame = frame;
      }

  from_sender-IsDelivered :
      (o : Option User)
      → sender_of device db ≡ o
      → (from_sender clock second s o pairs db net).0 ≡ delivered
      → IsDelivered clock true second device s pairs db net
          (from_sender clock second s o pairs db net).2
  unfolding from_sender
  from_sender-IsDelivered none row h = absurd (cc h)
  from_sender-IsDelivered (some sender) row h =
      elim (Bool-cases (sender.public_uid == s.from_uid && not (s.from_uid == s.to_uid))) [
        | inl e ↦ rw e (
            within_budget-IsDelivered sender (take clock.budget_at s.from_uid s.to_uid pairs) row
              (ground arith) (ground arith) refl (rw e at h))
        | inr e ↦ absurd (cc (rw e at h))
      ]

-- A signal is reported as delivered only if the session was authorized both before and after the
-- look-ups, the device is an active one of the account that the signal names as its sender, the pair
-- is within its budget, the peer's account and device are active and the two users approved, and the
-- signal's lifetime had not passed; then exactly one frame was sent, to that peer's device.
pub forward_signal-IsDelivered :
    (clock : Clock) (first second : Bool) (device : Uuid) (s : Signal) (pairs : List Entry)
    (db : Db) (net : Net)
    → (forward_signal clock first second device s pairs db net).0 ≡ delivered
    → IsDelivered clock first second device s pairs db net
        (forward_signal clock first second device s pairs db net).2
unfolding forward_signal
forward_signal-IsDelivered clock false second device s pairs db net h = absurd (cc h)
forward_signal-IsDelivered clock true second device s pairs db net h =
    from_sender-IsDelivered clock second device s pairs db net (sender_of device db) refl h
