-- ===== src/Daemon/Routing.antt =====
-- apps/local-daemon/src/tor-routing.ts: which requests of the daemon go to the relay, which are
-- answered from the onion service's tables, and the jobs that deliver envelopes to peers. Requests are
-- parsed; base64 stands for its bytes.
pub mod Delivery
pub mod Direct
pub mod Acks
pub mod Jobs
pub mod Pieces
use crypto_pigeon.Prelude.{
  ◌>>=◌, ℕ, ◌+◌, Bool, true, false, not, ◌&&◌, ◌||◌, Option, none, some, List, [], ◌∷◌, ◌++◌,
  length, find, any, delete, limit, is_some, ◌==◌, leb, ltb, if◌then◌else◌,
}
use crypto_pigeon.Relay.Db.{Opaque}
use crypto_pigeon.Relay.Attachments.{Announcement, is_valid, ChunkBody}
use crypto_pigeon.Daemon.Local.{Message, Local}
use crypto_pigeon.Daemon.Jobs.Expiry.{Attachment}
use crypto_pigeon.Daemon.Onion.{Peer, Envelope, Parcel, Part, is_part, Tables, is_device}

pub data TorMode : Type 0 where
  direct_tor_p2p hybrid_tor_relay relay_only : TorMode

unfoldable pub is_direct : TorMode → Bool
is_direct direct_tor_p2p = true
is_direct hybrid_tor_relay = false
is_direct relay_only = false

unfoldable pub is_hybrid : TorMode → Bool
is_hybrid direct_tor_p2p = false
is_hybrid hybrid_tor_relay = true
is_hybrid relay_only = false

-- A delivery that `route` has started: the peer and the transport that it saw.
pub record Job : Type 0 where
  pub envelope : Envelope
  pub peer : Option Peer
  pub has_transport : Bool

-- A row of `tor_blobs`, without its date.
pub record Spooled : Type 0 where
  pub blob_id : Opaque
  pub chunk_count : ℕ
  pub total_size : ℕ

-- A row of `attachment_downloads`, with the fields of its manifest that routing reads.
pub record Download : Type 0 where
  pub attachment_id : Opaque
  pub blob_id : Opaque

-- The router and the tables that it uses; `can_prepare` and `can_prepare_download` are whether the
-- relay's requests can be prepared, `cached` is tor_download_chunks, and `blob_jobs` the jobs
-- 'blob:' and an id.
pub record Routing : Type 0 where
  pub mode : TorMode
  pub has_transport : Bool
  pub serverless : Bool
  pub can_prepare : Bool
  pub can_prepare_download : Bool
  pub jobs : List Job
  pub blob_jobs : List Opaque
  pub tables : Tables
  pub spool : List Spooled
  pub cached : List Part
  pub downloads : List Download
  pub store : Local

pub data Request : Type 0 where
  pending : Request
  ack : (ids : List Opaque) → Request
  send : (envelope : Envelope) → Request
  upload : (announcement : Announcement) → Request
  put : (blob : Opaque) → (body : ChunkBody) → Request
  download : (blob : Opaque) → (index : ℕ) → Request
  remove : (blob : Opaque) → Request
  elsewhere : (path : Opaque) → Request

pub data Fault : Type 0 where
  invalid_blob invalid_chunk duplicate_row peer_onion_missing relay_disabled_in_direct_mode : Fault

pub data Answer : Type 0 where
  incoming : (parcels : List Parcel) → Answer
  no_content unavailable stored : Answer
  part : (found : Part) → Answer

-- An undefined result lets the request, as it is then, go on to the relay.
pub data Routed : Type 0 where
  answered : (answer : Answer) → Routed
  to_relay : (request : Request) → Routed
  failed : (fault : Fault) → Routed

unfoldable pub is_parcel : Opaque → Parcel → Bool
is_parcel id p = p.envelope.envelope_id == id

unfoldable pub pending_reply : TorMode → List Parcel → Routed
unfolding is_direct
pending_reply mode [] = if is_direct mode then answered (incoming []) else to_relay pending
pending_reply mode (p ∷ ps) = answered (incoming (p ∷ ps))

unfoldable pub route_pending : Routing → Routed
unfolding pending_reply
route_pending s = pending_reply s.mode (limit 256 s.tables.inbox)

-- The loop of the transaction: the ids that no row had, and the inbox without the others.
unfoldable pub take_acks : List Opaque → List Parcel → List Opaque × List Parcel
unfolding is_parcel
take_acks [] inbox = ([], inbox)
take_acks (id ∷ ids) inbox =
    let (relay_ids, inbox') = take_acks ids (delete (is_parcel id) inbox) in
    (if any (is_parcel id) inbox then relay_ids else id ∷ relay_ids, inbox')

unfoldable pub ack_reply : TorMode → List Opaque → Routed
unfolding is_hybrid
ack_reply mode [] = answered no_content
ack_reply mode (id ∷ ids) =
    if is_hybrid mode then to_relay (ack (id ∷ ids)) else answered no_content

unfoldable pub route_ack : List Opaque → Routing → Routed × Routing
unfolding take_acks ack_reply
route_ack ids s =
    let (relay_ids, inbox) = take_acks ids s.tables.inbox in
    (ack_reply s.mode relay_ids, record s { tables = record s.tables { inbox = inbox } })

unfoldable pub is_job : Opaque → Job → Bool
is_job id j = j.envelope.envelope_id == id

unfoldable pub add_job : Job → List Job → List Job
unfolding is_job
add_job j jobs = if any (is_job j.envelope.envelope_id) jobs then jobs else jobs ++ j ∷ []

-- Whether the router takes the envelope for a job.
unfoldable pub takes : Option Peer → Routing → Bool
unfolding is_hybrid
takes peer s = is_some peer && s.serverless || is_hybrid s.mode && s.can_prepare

unfoldable pub route_send : Envelope → Option Peer → Routing → Routed × Routing
unfolding takes add_job is_hybrid
route_send e peer s =
    if takes peer s
    then (
      answered unavailable,
      record s {
        jobs =
            add_job (record { envelope = e; peer = peer; has_transport = s.has_transport }) s.jobs;
      },
    )
    else if is_hybrid s.mode
    then (to_relay (send e), s)
    else (answered unavailable, s)

unfoldable pub route_upload : Announcement → Routing → Routed × Routing
unfolding is_valid
route_upload a s =
    if not (is_valid a)
    then (failed invalid_blob, s)
    else if any (λ b. b.blob_id == a.blob_id) s.spool
    then (failed duplicate_row, s)
    else (
      answered stored,
      record s {
        spool =
            s.spool
            ++ record {
              blob_id = a.blob_id;
              chunk_count = a.chunk_count;
              total_size = a.total_size;
            }
              ∷ [];
      },
    )

unfoldable pub is_chunk_of : Spooled → ChunkBody → Bool
is_chunk_of meta c =
    ltb c.chunk_index meta.chunk_count
    && length c.nonce == 12
    && leb 16 (length c.ciphertext)
    && leb (length c.ciphertext) 65552

unfoldable pub route_put : Opaque → ChunkBody → Option Spooled → Routing → Routed × Routing
unfolding is_chunk_of is_part
route_put blob c none s = (failed invalid_chunk, s)
route_put blob c (some meta) s =
    if not (is_chunk_of meta c)
    then (failed invalid_chunk, s)
    else if any (is_part blob c.chunk_index) s.tables.parts
    then (failed duplicate_row, s)
    else (
      answered stored,
      record s {
        tables = record s.tables {
          parts =
              s.tables.parts
              ++ record {
                blob_id = blob;
                chunk_index = c.chunk_index;
                nonce = c.nonce;
                ciphertext = c.ciphertext;
              }
                ∷ [];
        };
      },
    )

abbrev pub first_some {ℓ κ} : {A : Type ℓ} {B : Type κ} → (A → Option B) → List A → Option B
first_some f [] = none
first_some f (x ∷ xs) = elim (f x) [ none ↦ first_some f xs | some y ↦ some y ]

-- The device of the contact whose message has the attachment, by the joined tables.
unfoldable pub device_of : Opaque → Routing → Option Opaque
device_of attachment s =
    first_some
      (λ (a : Attachment).
        if not (a.attachment_id == attachment)
        then none
        else first_some
            (λ (m : Message). if not (m.message_id == a.message_id) then none else do
              c ← find (λ c. c.conversation_id == m.conversation_id) s.store.side.conversations
              r ← find (λ r. r.contact_id == c.contact_id) s.store.side.remotes
              some r.device_id)
            s.store.messages)
      s.tables.attachments

-- The first joined row whose manifest names the blob.
unfoldable pub holder : Opaque → Routing → Option Opaque
unfolding device_of
holder blob s =
    first_some (λ (d : Download). if d.blob_id == blob then device_of d.attachment_id s else none)
      s.downloads

unfoldable pub add_blob_job : Opaque → List Opaque → List Opaque
add_blob_job blob jobs = if any (λ j. j == blob) jobs then jobs else jobs ++ blob ∷ []

unfoldable pub fetch_from_peer : Opaque → ℕ → Option Peer → Routing → Routed × Routing
unfolding add_blob_job is_hybrid
fetch_from_peer blob index peer s =
    if is_some peer && s.serverless
    then (answered unavailable, record s { blob_jobs = add_blob_job blob s.blob_jobs })
    else if is_hybrid s.mode
    then (to_relay (download blob index), s)
    else (failed peer_onion_missing, s)

unfoldable pub peer_of : Option Opaque → Routing → Option Peer
unfolding is_device
peer_of none s = none
peer_of (some device) s = find (is_device device) s.tables.peers

unfoldable pub route_download : Opaque → ℕ → Option Part → Routing → Routed × Routing
unfolding fetch_from_peer holder peer_of
route_download blob index none s = fetch_from_peer blob index (peer_of (holder blob s) s) s
route_download blob index (some p) s = (answered (part p), s)

unfoldable pub route_elsewhere : Opaque → Routing → Routed
unfolding is_direct
route_elsewhere path s =
    if is_direct s.mode then failed relay_disabled_in_direct_mode else to_relay (elsewhere path)

-- `route` in the two modes that use Tor.
unfoldable pub route_tor : Request → Routing → Routed × Routing
unfolding route_pending route_ack route_send route_upload route_put route_download route_elsewhere
    is_part is_device
route_tor pending s = (route_pending s, s)
route_tor (ack ids) s = route_ack ids s
route_tor (send e) s = route_send e (find (is_device e.mailbox_id) s.tables.peers) s
route_tor (upload a) s = route_upload a s
route_tor (put blob c) s = route_put blob c (find (λ b. b.blob_id == blob) s.spool) s
route_tor (download blob index) s = route_download blob index (find (is_part blob index) s.cached) s
route_tor (remove blob) s =
    (answered no_content, record s { cached = delete (λ p. p.blob_id == blob) s.cached })
route_tor (elsewhere path) s = (route_elsewhere path s, s)

unfoldable pub route_in : TorMode → Request → Routing → Routed × Routing
unfolding route_tor
route_in relay_only r s = (to_relay r, s)
route_in direct_tor_p2p r s = route_tor r s
route_in hybrid_tor_relay r s = route_tor r s

unfoldable pub route : Request → Routing → Routed × Routing
unfolding route_in
route r s = route_in s.mode r s
