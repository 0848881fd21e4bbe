-- ===== src/Daemon/Routing/Delivery.antt =====
-- apps/local-daemon/src/tor-routing.ts: the jobs that deliver envelopes to peers or to the relay, and
-- messages.ts: flushOutbox with its posts routed.
use crypto_pigeon.Prelude.{
  ℕ, suc, Bool, true, false, not, ◌&&◌, ◌||◌, Option, none, some, List, [], ◌∷◌, Text, any, update,
  delete, ◌==◌, if◌then◌else◌,
}
use crypto_pigeon.Relay.Db.{Opaque}
use crypto_pigeon.Daemon.Local.{Status, queued, sent, delivered, read, received, Outgoing, Local}
use crypto_pigeon.Daemon.Outbox.{mark_sent}
use crypto_pigeon.Daemon.Onion.{Peer, Envelope}
use crypto_pigeon.Daemon.Routing.{
  is_hybrid, Job, Routing, send, incoming, no_content, unavailable, stored, part, Routed, answered,
  to_relay, failed, is_job, route,
}

-- What the world answers a job: the peer, whether the vault's session is still the one that the job
-- began in when the relay's request is prepared and when the tables are written, and the relay.
pub record World : Type 0 where
  pub peer_accepts : Peer → Envelope → Bool
  pub is_same_before : Bool
  pub relay_accepts : Envelope → Bool
  pub is_same_after : Bool

unfoldable pub by_peer : World → Job → Option Peer → Bool
by_peer w j none = false
by_peer w j (some peer) = j.has_transport && w.peer_accepts peer j.envelope

-- Whether the job prepares, and then sends, a request to the relay.
unfoldable pub asks_relay : World → Job → Routing → Bool
unfolding by_peer is_hybrid
asks_relay w j s = not (by_peer w j j.peer) && is_hybrid s.mode && s.can_prepare && w.is_same_before

unfoldable pub by_relay : World → Job → Routing → Bool
unfolding asks_relay
by_relay w j s = asks_relay w j s && w.relay_accepts j.envelope

unfoldable pub is_accepted : World → Job → Routing → Bool
unfolding by_peer by_relay
is_accepted w j s = by_peer w j j.peer || by_relay w j s

unfoldable pub is_queued : Status → Bool
is_queued queued = true
is_queued sent = false
is_queued delivered = false
is_queued read = false
is_queued received = false

-- The transaction of a job that was accepted.
unfoldable pub commit : Opaque → Local → Local
unfolding is_queued
commit id l = record l {
  messages =
      update
        (λ m.
          any (λ o. o.envelope_id == id && o.message_id == m.message_id) l.outbox
          && is_queued m.status)
        (λ m. record m { status = sent }) l.messages;
  outbox = delete (λ o. o.envelope_id == id) l.outbox;
  side = record l.side { controls = delete (λ c. c.envelope_id == id) l.side.controls };
}

unfoldable pub end_job : Opaque → Routing → Routing
unfolding is_job
end_job id s = record s { jobs = delete (is_job id) s.jobs }

-- The function that a job's timer calls.
unfoldable pub deliver : World → Job → Routing → Routing
unfolding is_accepted commit end_job
deliver w j s =
    if is_accepted w j s && w.is_same_after
    then end_job j.envelope.envelope_id (record s { store = commit j.envelope.envelope_id s.store })
    else end_job j.envelope.envelope_id s

-- The body of a post of the outbox; `bytes` is what a ciphertext stands for.
unfoldable pub envelope_of : (Opaque → Text) → Outgoing → Envelope
envelope_of bytes o = record {
  envelope_id = o.envelope_id;
  mailbox_id = o.mailbox_id;
  ciphertext = bytes o.ciphertext;
  options = 0;
}

-- `response.ok`, where `accepts` is the relay's answer to a post.
unfoldable pub is_ok : Bool → Routed → Bool
is_ok accepts (answered unavailable) = false
is_ok accepts (answered (incoming parcels)) = true
is_ok accepts (answered no_content) = true
is_ok accepts (answered stored) = true
is_ok accepts (answered (part found)) = true
is_ok accepts (to_relay request) = accepts
is_ok accepts (failed fault) = false

-- The loop of flushOutbox, with its posts routed.
unfoldable pub flush_routed :
    (Opaque → Text) → (Outgoing → Bool) → List Outgoing → Routing → ℕ × Routing
unfolding route envelope_of is_ok
flush_routed bytes accepts [] s = (0, s)
flush_routed bytes accepts (o ∷ os) s =
    let (reply, s') = route (send (envelope_of bytes o)) s in
    let (n, rest) = flush_routed bytes accepts os (record s' { store = mark_sent o s'.store }) in
    if is_ok (accepts o) reply then (suc n, rest) else (0, s')
