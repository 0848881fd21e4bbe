-- ===== src/Examples/Onion.antt =====
-- The onion service, the routing of requests and the relay client at concrete inputs.
use crypto_pigeon.Prelude.{
  find, ◌≡◌, refl, Bool, true, false, ◌&&◌, ◌||◌, Option, none, some, [], ◌∷◌, Text, ltb, length,
  ◌==◌, if◌then◌else◌, text_eq,
}
use crypto_pigeon.Relay.Db.{Opaque}
use crypto_pigeon.Daemon.Local.{Outgoing, queued, Message, Local}
use crypto_pigeon.Daemon.Onion.{
  is_device, Peer, Envelope, post, envelopes, Incoming, Signed, Tables, Onion, receive,
}
use crypto_pigeon.Daemon.Onion.Admission.{Admits, receive-Admits}
use crypto_pigeon.Daemon.Routing.{
  is_direct, is_hybrid, direct_tor_p2p, hybrid_tor_relay, Job, Routing, pending, ack, send, route,
}
use crypto_pigeon.Daemon.Routing.Delivery.{
  World, by_peer, by_relay, deliver, envelope_of, flush_routed,
}
use crypto_pigeon.Daemon.Routing.Pieces.{
  Network, BlobJob, asks_for_chunk, chunk_answer, keep_chunk, fetch_chunks, fetch_blob,
}
use crypto_pigeon.Daemon.Routing.Direct.{
  request, timer, chunks, ever_contacts_relay, ever_contacts_relay-direct,
}
use crypto_pigeon.Daemon.Routing.Acks.{are_distinct, IsSplit, route-IsSplit}
use crypto_pigeon.Daemon.Routing.Jobs.{IsDelivery, deliver-IsDelivery, flush_routed-direct}
use crypto_pigeon.Daemon.Client.Events.{asks, logs_in, clears, run}
use crypto_pigeon.Daemon.Client.Session.{signed_out, IsPresent, run-IsPresent}
use crypto_pigeon.Daemon.Invites.{Invite, Book, World as Reading, import_contact}
use crypto_pigeon.Daemon.Invites.Pins.{import_contact-keeps}
use crypto_pigeon.Daemon.Passwords.{
  valid, too_short, too_simple, validate_password_strength, is_mixed,
  validate_password_strength_lem,
}
use crypto_pigeon.Examples.Fixtures.{repeated}

abbrev carol : Peer
carol = record { device_id = 21; contact_id = 3; onion = 5; auth_key = 77 }

abbrev hello : Envelope
hello = record { envelope_id = 501; mailbox_id = 11; ciphertext = 1 ∷ 2 ∷ []; options = 0 }

abbrev tables : Tables
tables = record {
  peers = carol ∷ [];
  contacts = [];
  conversations = [];
  messages = [];
  attachments = [];
  links = [];
  parts = [];
  inbox = [];
}

abbrev service : Onion
service = record {
  stopped = false;
  device_id = 11;
  peer_envelopes = 0;
  peer_chunks = 0;
  peer_error = none;
  tables = tables;
}

abbrev verify : Opaque → Signed → Opaque → Bool
verify key signed signature = key == signature

abbrev parse : Text → Option Envelope
parse body = some hello

abbrev delivery : Incoming
delivery = record {
  method = post;
  target = envelopes;
  body = 9 ∷ [];
  sender = 21;
  time = some 1000000;
  nonce = repeated 32 b'a';
  signature = 77;
}

receive-Admits_example :
    Admits verify parse 1000500 1000600 delivery service
      (receive verify parse 1000500 1000600 delivery service).0
      (receive verify parse 1000500 1000600 delivery service).1.tables
receive-Admits_example = receive-Admits verify parse 1000500 1000600 delivery service

abbrev greeting : Outgoing
greeting = record {
  envelope_id = 501;
  message_id = 601;
  mailbox_id = 21;
  ciphertext = 9;
  created_at = 0;
}

abbrev farewell : Outgoing
farewell = record greeting { envelope_id = 502; message_id = 602; mailbox_id = 22 }

abbrev greeting_message : Message
greeting_message = record {
  message_id = 601;
  conversation_id = 4;
  is_sent = true;
  plaintext = 8;
  envelope = some 501;
  status = queued;
  disappear_at = none;
}

abbrev store : Local
store = record {
  messages = greeting_message ∷ [];
  outbox = greeting ∷ farewell ∷ [];
  seen = [];
  side = record {
    contacts = [];
    remotes = [];
    conversations = [];
    controls = [];
    links = [];
    attachments = [];
    profiles = [];
    typing = [];
    ratchets = 0;
  };
}

abbrev router : Routing
router = record {
  mode = direct_tor_p2p;
  has_transport = true;
  serverless = true;
  can_prepare = true;
  can_prepare_download = true;
  jobs = [];
  blob_jobs = [];
  tables = record tables { inbox = record { envelope = hello; sender_id = 21 } ∷ [] };
  spool = [];
  cached = [];
  downloads = [];
  store = store;
}

abbrev hybrid : Routing
hybrid = record router { mode = hybrid_tor_relay }

abbrev job : Job
job = record { envelope = hello; peer = some carol; has_transport = true }

-- The peer is offline; the relay would accept.
abbrev offline : World
offline = record {
  peer_accepts = λ p e. false;
  is_same_before = true;
  relay_accepts = λ e. true;
  is_same_after = true;
}

-- The peer has no chunk; the relay would have it.
abbrev unheard : Network
unheard = record {
  peer_gives = λ i. none;
  is_same_before = λ i. true;
  relay_gives = λ i. some (repeated 12 1, repeated 17 2);
  is_same_after = λ i. true;
}

abbrev blob_job : BlobJob
blob_job = record { blob_id = 70; chunk_count = 1; chunk_nonces = repeated 12 1 ∷ [] }

asks_in_hybrid : (fetch_blob unheard blob_job hybrid).0 ≡ true
unfolding fetch_blob fetch_chunks keep_chunk chunk_answer asks_for_chunk is_hybrid text_eq
asks_in_hybrid = refl

ever_contacts_relay-direct_example :
    ever_contacts_relay
      (request (send hello) ∷ timer offline job ∷ chunks unheard blob_job ∷ request pending ∷ [])
      router
    ≡ false
ever_contacts_relay-direct_example =
    ever_contacts_relay-direct
      (request (send hello) ∷ timer offline job ∷ chunks unheard blob_job ∷ request pending ∷ [])
      router refl

hybrid-uses_tor : (is_direct hybrid.mode || is_hybrid hybrid.mode) ≡ true
unfolding is_direct is_hybrid
hybrid-uses_tor = refl

ids-distinct : are_distinct (501 ∷ 777 ∷ []) ≡ true
unfolding are_distinct
ids-distinct = refl

route-IsSplit_example : IsSplit (501 ∷ 777 ∷ []) hybrid (route (ack (501 ∷ 777 ∷ [])) hybrid)
route-IsSplit_example = route-IsSplit (501 ∷ 777 ∷ []) hybrid hybrid-uses_tor ids-distinct

deliver-IsDelivery_example :
    IsDelivery 501
      ((by_peer offline job (some carol) || by_relay offline job hybrid) && true)
      store
      (deliver offline job hybrid).store
deliver-IsDelivery_example = deliver-IsDelivery offline job hybrid

abbrev bytes : Opaque → Text
bytes c = c ∷ []

flush_routed-direct_example :
    flush_routed bytes (λ o. true) (greeting ∷ farewell ∷ []) router
    ≡ (0, (route (send (envelope_of bytes greeting)) router).1)
flush_routed-direct_example =
    flush_routed-direct bytes (λ o. true) greeting (farewell ∷ []) router refl

run-IsPresent_example : IsPresent (
    run
      (asks 0 1
        ∷ clears
        ∷ logs_in (record { generation = 0; number = 1 }) false (some (9, 3600000))
        ∷ asks 0 2
        ∷ [])
      signed_out)
run-IsPresent_example = run-IsPresent (
    asks 0 1
    ∷ clears
    ∷ logs_in (record { generation = 0; number = 1 }) false (some (9, 3600000))
    ∷ asks 0 2
    ∷ [])

abbrev password : Text
password = b'P' ∷ b'i' ∷ b'g' ∷ b'e' ∷ b'o' ∷ b'n' ∷ b'-' ∷ b'2' ∷ b'0' ∷ b'2' ∷ b'6' ∷ b'!' ∷ []

validate_password_strength_lem_example : validate_password_strength password ≡ (
    if ltb (length password) 12 then too_short else if is_mixed password then valid else too_simple)
validate_password_strength_lem_example = validate_password_strength_lem password

abbrev book : Book
book = record {
  device_id = 11;
  keys = record {
    contacts = [];
    sessions = [];
    prekeys = [];
    signed_prekeys = [];
    kyber_prekeys = [];
  };
  remotes = [];
  onions = carol ∷ [];
  conversations = [];
}

-- An invitation of Carol's device with another address.
abbrev moved : Invite
moved = record {
  username = 3;
  onion = 6;
  user_id = 3;
  device_id = 21;
  signal_device_id = 1;
  device_auth_key = 77;
  identity_key = 30;
  prekeys = 91 ∷ 92 ∷ [];
}

abbrev reader : Reading
reader = record {
  verifies = λ k p. true;
  address_of = λ u d. u;
  establish = λ a i k. some k;
  fresh = 400;
}

finds_carol : find (is_device 21) book.onions ≡ some carol
unfolding is_device
finds_carol = refl

import_contact-keeps_example :
    find (is_device 21) (import_contact reader moved book).1.onions ≡ some carol
import_contact-keeps_example = import_contact-keeps 21 carol reader moved book finds_carol
