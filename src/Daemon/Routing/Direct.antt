-- ===== src/Daemon/Routing/Direct.antt =====
-- Direct mode keeps away from the relay.
use crypto_pigeon.Prelude.{
  ℕ, zero, suc, Option-cases, Text, ◌≡◌, refl, sym, ap, subst, ◌∙◌, Bool-cases, inl, inr, Bool,
  true, false, ◌&&◌, ◌||◌, Option, none, some, List, [], ◌∷◌, arith, find, any, limit, is_some,
  ◌==◌,
}
use crypto_pigeon.Relay.Db.{Opaque}
use crypto_pigeon.Relay.Attachments.{Announcement, is_valid, ChunkBody}
use crypto_pigeon.Daemon.Onion.{Peer, Envelope, Parcel, Part, is_part, is_device}
use crypto_pigeon.Daemon.Routing.{
  direct_tor_p2p, is_direct, is_hybrid, Job, Spooled, Routing, Request, pending, ack, send, upload,
  put, download, remove, elsewhere, Routed, answered, to_relay, failed, pending_reply, is_chunk_of,
  route_in, route_pending, take_acks, ack_reply, route_ack, takes, route_send, route_upload,
  route_put, fetch_from_peer, route_download, holder, peer_of, route_elsewhere, route_tor, route,
}
use crypto_pigeon.Daemon.Routing.Delivery.{
  World, asks_relay, by_relay, is_accepted, end_job, deliver,
}
use crypto_pigeon.Daemon.Routing.Pieces.{
  Network, BlobJob, asks_for_chunk, chunk_answer, replace_part, keep_chunk, fetch_chunks,
  fetch_blob,
}

unfoldable pub is_relayed : Routed → Bool
is_relayed (answered a) = false
is_relayed (to_relay r) = true
is_relayed (failed f) = false

-- What the daemon does with the router: a request, the run of a delivery, or that of a download.
pub data Event : Type 0 where
  request : (r : Request) → Event
  timer : (w : World) → (j : Job) → Event
  chunks : (w : Network) → (j : BlobJob) → Event

-- Whether a step contacts the relay: a request is passed on to it, or a job asks it or goes by its
-- answer.
unfoldable pub contacts_relay : Event → Routing → Bool
unfolding is_relayed asks_relay by_relay fetch_blob
contacts_relay (request r) s = is_relayed (route r s).0
contacts_relay (timer w j) s = asks_relay w j s || by_relay w j s
contacts_relay (chunks w j) s = (fetch_blob w j s).0

unfoldable pub step : Event → Routing → Routing
step (request r) s = (route r s).1
step (timer w j) s = deliver w j s
step (chunks w j) s = (fetch_blob w j s).1

unfoldable pub ever_contacts_relay : List Event → Routing → Bool
ever_contacts_relay [] s = false
ever_contacts_relay (e ∷ es) s = contacts_relay e s || ever_contacts_relay es (step e s)

-- What a step of direct mode gives.
record Stays (o : Routed × Routing) : Type 0 where
  pub alone : is_relayed o.0 ≡ false
  pub mode : o.1.mode ≡ direct_tor_p2p

pending_reply-alone : (ps : List Parcel) → is_relayed (pending_reply direct_tor_p2p ps) ≡ false
unfolding pending_reply is_relayed is_direct
pending_reply-alone [] = refl
pending_reply-alone (p ∷ ps) = refl

ack_reply-alone : (ids : List Opaque) → is_relayed (ack_reply direct_tor_p2p ids) ≡ false
unfolding ack_reply is_relayed is_hybrid
ack_reply-alone [] = refl
ack_reply-alone (id ∷ ids) = refl

module _ (s : Routing) (d : s.mode ≡ direct_tor_p2p) where
  not_hybrid : is_hybrid s.mode ≡ false
  unfolding is_hybrid
  not_hybrid = ap is_hybrid d

  is_direct-mode : is_direct s.mode ≡ true
  unfolding is_direct
  is_direct-mode = ap is_direct d

  route_send-Stays : (e : Envelope) (o : Option Peer) → Stays (route_send e o s)
  unfolding route_send is_relayed
  route_send-Stays e o = elim (Bool-cases (takes o s)) [
    | inl t ↦ rw t (record { alone = refl; mode = d })
    | inr f ↦ rw (f, not_hybrid) (record { alone = refl; mode = d })
  ]

  route_upload-Stays : (a : Announcement) → Stays (route_upload a s)
  unfolding route_upload is_relayed
  route_upload-Stays a = elim (Bool-cases (is_valid a)) [
    | inr f ↦ rw f (record { alone = refl; mode = d })
    | inl t ↦ elim (Bool-cases (any (λ b. b.blob_id == a.blob_id) s.spool)) [
      | inl there ↦ rw (t, there) (record { alone = refl; mode = d })
      | inr new ↦ rw (t, new) (record { alone = refl; mode = d })
    ]
  ]

  route_put-Stays :
      (blob : Opaque) (c : ChunkBody) (o : Option Spooled) → Stays (route_put blob c o s)
  unfolding route_put is_relayed
  route_put-Stays blob c none = record { alone = refl; mode = d }
  route_put-Stays blob c (some meta) = elim (Bool-cases (is_chunk_of meta c)) [
    | inr f ↦ rw f (record { alone = refl; mode = d })
    | inl t ↦ elim (Bool-cases (any (is_part blob c.chunk_index) s.tables.parts)) [
      | inl there ↦ rw (t, there) (record { alone = refl; mode = d })
      | inr new ↦ rw (t, new) (record { alone = refl; mode = d })
    ]
  ]

  fetch_from_peer-Stays :
      (blob : Opaque) (index : ℕ) (o : Option Peer) → Stays (fetch_from_peer blob index o s)
  unfolding fetch_from_peer is_relayed
  fetch_from_peer-Stays blob index o = elim (Bool-cases (is_some o && s.serverless)) [
    | inl t ↦ rw t (record { alone = refl; mode = d })
    | inr f ↦ rw (f, not_hybrid) (record { alone = refl; mode = d })
  ]

  route_download-Stays :
      (blob : Opaque) (index : ℕ) (o : Option Part) → Stays (route_download blob index o s)
  unfolding route_download is_relayed
  route_download-Stays blob index none =
      fetch_from_peer-Stays blob index (peer_of (holder blob s) s)
  route_download-Stays blob index (some p) = record { alone = refl; mode = d }

  route_tor-Stays : (r : Request) → Stays (route_tor r s)
  unfolding route_tor is_relayed route_pending route_ack route_elsewhere
  route_tor-Stays pending = record {
    alone =
        ap (λ m. is_relayed (pending_reply m (limit 256 s.tables.inbox))) d
        ∙ pending_reply-alone (limit 256 s.tables.inbox);
    mode = d;
  }
  route_tor-Stays (ack ids) = record {
    alone =
        ap (λ m. is_relayed (ack_reply m (take_acks ids s.tables.inbox).0)) d
        ∙ ack_reply-alone (take_acks ids s.tables.inbox).0;
    mode = d;
  }
  route_tor-Stays (send e) = route_send-Stays e (find (is_device e.mailbox_id) s.tables.peers)
  route_tor-Stays (upload a) = route_upload-Stays a
  route_tor-Stays (put blob c) = route_put-Stays blob c (find (λ b. b.blob_id == blob) s.spool)
  route_tor-Stays (download blob index) =
      route_download-Stays blob index (find (is_part blob index) s.cached)
  route_tor-Stays (remove blob) = record { alone = refl; mode = d }
  route_tor-Stays (elsewhere path) = record { alone = rw is_direct-mode refl; mode = d }

  route-Stays : (r : Request) → Stays (route r s)
  unfolding route route_in
  route-Stays r = subst (λ m. Stays (route_in m r s)) (sym d) (route_tor-Stays r)

  deliver-mode : (w : World) (j : Job) → (deliver w j s).mode ≡ direct_tor_p2p
  unfolding deliver end_job
  deliver-mode w j = elim (Bool-cases (is_accepted w j s && w.is_same_after)) [
    | inl t ↦ rw t d
    | inr f ↦ rw f d
  ]

keep_chunk-mode :
    (w : Network) (j : BlobJob) (i : ℕ) (o : Option (Text × Text)) (s s' : Routing)
    → keep_chunk w j i o s ≡ some s'
    → s'.mode ≡ s.mode
unfolding keep_chunk replace_part
keep_chunk-mode w j i none s s' e = absurd (cc e)
keep_chunk-mode w j i (some (nonce, ciphertext)) s s' e = ground arith

fetch_chunks-direct :
    (w : Network) (j : BlobJob) (n i : ℕ) (s : Routing)
    → s.mode ≡ direct_tor_p2p
    → ((fetch_chunks w j n i s).0 ≡ false) × ((fetch_chunks w j n i s).1.mode ≡ direct_tor_p2p)
unfolding fetch_chunks asks_for_chunk
fetch_chunks-direct w j zero i s d = (refl, d)
fetch_chunks-direct w j (suc n) i s d =
    elim (Option-cases (keep_chunk w j i (chunk_answer w i s) s)) [
      | inl stops ↦ rw (stops, fetch_chunks) (ground (arith, not_hybrid s d), d)
      | inr (s', e) ↦
          let (quiet, mode) =
            fetch_chunks-direct w j n (suc i) s' (keep_chunk-mode w j i _ s s' e ∙ d) in
          rw (e, fetch_chunks) (ground (arith, not_hybrid s d, quiet), mode)
    ]

-- In direct mode no sequence of requests and of runs of delivery and download jobs, whatever the
-- peers and the relay would answer, contacts the relay: no request is passed on to it, and no job
-- prepares a request for it or is accepted by it.
pub ever_contacts_relay-direct :
    (es : List Event) (s : Routing) → s.mode ≡ direct_tor_p2p → ever_contacts_relay es s ≡ false
unfolding ever_contacts_relay contacts_relay step asks_relay by_relay fetch_blob
ever_contacts_relay-direct [] s d = refl
ever_contacts_relay-direct (request r ∷ es) s d =
    let h = route-Stays s d r in rw h.alone (ever_contacts_relay-direct es (route r s).1 h.mode)
ever_contacts_relay-direct (timer w j ∷ es) s d =
    let later = ever_contacts_relay-direct es (deliver w j s) (deliver-mode s d w j) in
    ground (arith, not_hybrid s d, later)
ever_contacts_relay-direct (chunks w j ∷ es) s d =
    let (quiet, mode) = fetch_chunks-direct w j j.chunk_count 0 s d in
    rw quiet (ever_contacts_relay-direct es (fetch_blob w j s).1 mode)
