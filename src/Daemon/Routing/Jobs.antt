-- ===== src/Daemon/Routing/Jobs.antt =====
-- What a delivery job does to the outbox, and what a flush of the outbox does in direct mode.
use crypto_pigeon.Prelude.{
  ◌≡◌, refl, sym, ap, subst, ◌⊎◌, Text, Bool, true, false, ◌&&◌, ◌||◌, Option, List, [], ◌∷◌, arith,
  find, any, update, delete, ◌==◌, if◌then◌else◌, Bool-cases, inl, inr,
}
use crypto_pigeon.Relay.Db.{Opaque}
use crypto_pigeon.Daemon.Local.{
  Message, Status, queued, sent, delivered, read, received, Outgoing, Local,
}
use crypto_pigeon.Daemon.Onion.{Peer, Envelope, is_device}
use crypto_pigeon.Daemon.Outbox.{mark_sent, flush_rows}
use crypto_pigeon.Daemon.Routing.{
  direct_tor_p2p, relay_only, is_hybrid, Job, Routing, send, to_relay, takes, route_send, route_tor,
  route_in, route,
}
use crypto_pigeon.Daemon.Routing.Delivery.{
  envelope_of, is_ok, flush_routed, World, by_peer, by_relay, is_accepted, is_queued, commit,
  end_job, deliver,
}

-- Each message is as it was or, where `done`, went from queued to sent.
abbrev pub Sends : Bool → List Message → List Message → Type 0
Sends done [] [] = Unit
Sends done [] (m' ∷ ms') = ⊥
Sends done (m ∷ ms) [] = ⊥
Sends done (m ∷ ms) (m' ∷ ms') =
    ((m' ≡ m) ⊎ ((done ≡ true) × (m.status ≡ queued) × (m' ≡ record m { status = sent })))
    × Sends done ms ms'

Sends-refl : (done : Bool) (ms : List Message) → Sends done ms ms
Sends-refl done [] = tt
Sends-refl done (m ∷ ms) = (inl refl, Sends-refl done ms)

is_queued→queued : (x : Status) → is_queued x ≡ true → x ≡ queued
unfolding is_queued
is_queued→queued queued h = refl
is_queued→queued sent h = ground arith
is_queued→queued delivered h = ground arith
is_queued→queued read h = ground arith
is_queued→queued received h = ground arith

Sends-update :
    (q : Message → Bool) (ms : List Message)
    → Sends true ms (update (λ m. q m && is_queued m.status) (λ m. record m { status = sent }) ms)
Sends-update q [] = tt
Sends-update q (m ∷ ms) = elim (Bool-cases (q m && is_queued m.status)) [
  | inr f ↦ rw f (inl refl, Sends-update q ms)
  | inl t ↦
      let e : m.status ≡ queued = is_queued→queued m.status (ground arith) in
      rw t (inr (refl, e, refl), Sends-update q ms)
]

-- The daemon's tables `after` a job for the envelope `id`, which was accepted if `done`.
pub record IsDelivery (id : Opaque) (done : Bool) (before after : Local) : Type 0 where
  pub outbox :
      after.outbox
      ≡ (if done then delete (λ o. o.envelope_id == id) before.outbox else before.outbox)
  pub messages : Sends done before.messages after.messages
  pub seen : after.seen ≡ before.seen

commit-IsDelivery : (id : Opaque) (l : Local) → IsDelivery id true l (commit id l)
unfolding commit
commit-IsDelivery id l = record {
  outbox = refl;
  messages =
      Sends-update (λ m. any (λ o. o.envelope_id == id && o.message_id == m.message_id) l.outbox)
        l.messages;
  seen = refl;
}

-- A job removes its envelope from the outbox exactly if the peer accepted it or, in hybrid mode, the
-- relay did, and the vault's session is still the one that the job began in; no other row leaves. It
-- marks messages as sent only then, and only queued ones: a receipt that came earlier is kept.
pub deliver-IsDelivery :
    (w : World) (j : Job) (s : Routing)
    → IsDelivery j.envelope.envelope_id
        ((by_peer w j j.peer || by_relay w j s) && w.is_same_after)
        s.store
        (deliver w j s).store
unfolding deliver is_accepted end_job
deliver-IsDelivery w j s =
    elim (Bool-cases ((by_peer w j j.peer || by_relay w j s) && w.is_same_after)) [
      | inl t ↦ rw t (commit-IsDelivery j.envelope.envelope_id s.store)
      | inr f ↦
          rw f (record { outbox = refl; messages = Sends-refl false s.store.messages; seen = refl })
    ]

route_send-blocked :
    (e : Envelope) (o : Option Peer) (accepts : Bool) (s : Routing)
    → is_hybrid s.mode ≡ false
    → is_ok accepts (route_send e o s).0 ≡ false
unfolding route_send is_ok
route_send-blocked e o accepts s h = elim (Bool-cases (takes o s)) [
  | inl t ↦ rw t refl
  | inr f ↦ rw (f, h) refl
]

route-blocked :
    (e : Envelope) (accepts : Bool) (s : Routing)
    → s.mode ≡ direct_tor_p2p
    → is_ok accepts (route (send e) s).0 ≡ false
unfolding route route_in route_tor is_hybrid
route-blocked e accepts s d =
    subst (λ m'. is_ok accepts (route_in m' (send e) s).0 ≡ false) (sym d)
      (route_send-blocked e (find (is_device e.mailbox_id) s.tables.peers) accepts s
        (ap is_hybrid d))

-- In direct mode a flush of the outbox ends at its first row, which is at most handed to a job: no row
-- after the first is looked at, whomever it is for, and none is counted as sent.
pub flush_routed-direct :
    (bytes : Opaque → Text) (accepts : Outgoing → Bool) (o : Outgoing) (os : List Outgoing)
    (s : Routing)
    → s.mode ≡ direct_tor_p2p
    → flush_routed bytes accepts (o ∷ os) s ≡ (0, (route (send (envelope_of bytes o)) s).1)
unfolding flush_routed
flush_routed-direct bytes accepts o os s d =
    rw (route-blocked (envelope_of bytes o) (accepts o) s d) refl

-- With the relay only, a flush is the plain one.
pub flush_routed-relay_only :
    (bytes : Opaque → Text) (accepts : Outgoing → Bool) (os : List Outgoing) (s : Routing)
    → s.mode ≡ relay_only
    → flush_routed bytes accepts os s
      ≡ ((flush_rows accepts os s.store).0, record s { store = (flush_rows accepts os s.store).1 })
unfolding flush_routed flush_rows route
flush_routed-relay_only bytes accepts [] s d = refl
flush_routed-relay_only bytes accepts (o ∷ os) s d =
    let go : route_in s.mode (send (envelope_of bytes o)) s
        ≡ (to_relay (send (envelope_of bytes o)), s) =
      subst
        (λ m.
          route_in m (send (envelope_of bytes o)) s ≡ (to_relay (send (envelope_of bytes o)), s))
        (sym d) (unfold route_in in refl) in
    let rest =
      flush_routed-relay_only bytes accepts os (record s { store = mark_sent o s.store }) d in
    rw go (elim (Bool-cases (accepts o)) [
      | inl t ↦ unfold is_ok in rw t (rw rest refl)
      | inr f ↦ unfold is_ok in rw f refl
    ])
