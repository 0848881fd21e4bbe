-- ===== src/Examples/Keys.antt =====
-- Prekey bundles and signals: prekeys.ts and signaling.ts at concrete inputs.
use crypto_pigeon.Prelude.{
  ℕ, ◌≤◌, ◌≡◌, refl, true, false, none, some, List, [], ◌∷◌, select, count, arith,
}
use crypto_pigeon.Relay.Db.{OneTimePrekey, last_resort, Db}
use crypto_pigeon.Relay.Sockets.{Net, client_of, within, deliverable, notify_client}
use crypto_pigeon.Relay.Conversations.{user_active, ordered, is_pair, permitted}
use crypto_pigeon.Relay.Queue.{user_of}
use crypto_pigeon.Relay.Auth.{is_active_device}
use crypto_pigeon.Relay.Prekeys.{is_key, is_one_time, available, pq_available}
use crypto_pigeon.Relay.Prekeys.Handout.{
  later, latest, Reply, Bundle, bundle, finish_bundle, with_signed, with_device, check_permission,
  bundle_for, fetch_bundle,
}
use crypto_pigeon.Relay.Prekeys.Rotation.{cleanup}
use crypto_pigeon.Relay.Prekeys.Granting.{IsGranted, fetch_bundle-IsGranted}
use crypto_pigeon.Relay.Prekeys.Uniqueness.{IsUnique}
use crypto_pigeon.Relay.Prekeys.Consumption.{Ask, hand_outs, hand_outs-IsUnique}
use crypto_pigeon.Relay.Prekeys.Cleanup.{cleanup-latest}
use crypto_pigeon.Relay.Signaling.{
  Signal, delivered, Pair, Entry, recent, per_window, has_key, is_stale, times_of, known, expire,
  set_times, exhausted, take_recent, take_pair, take, is_device, active_named, sender_of, is_peer,
  device_of, peer_of, Clock, push_signal, to_peer, within_budget, from_sender, forward_signal,
}
use crypto_pigeon.Relay.Signaling.Limit.{extend, Run, start, call, Run-limit}
use crypto_pigeon.Relay.Signaling.Forward.{IsDelivered, forward_signal-IsDelivered}
use crypto_pigeon.Examples.Fixtures.{friends}

abbrev bob_keys : List OneTimePrekey
bob_keys =
    record { device_id = 12; signal_prekey_id = 1; public_key = 41; consumed = true }
    ∷ record { device_id = 12; signal_prekey_id = 2; public_key = 42; consumed = false }
    ∷ record { device_id = 12; signal_prekey_id = 3; public_key = 43; consumed = false }
    ∷ []

abbrev stocked : Db
stocked = record friends {
  signed_prekeys =
      record {
        device_id = 12;
        signal_prekey_id = 1;
        public_key = 51;
        signature = 61;
        uploaded_at = 100;
      }
      ∷ record {
        device_id = 12;
        signal_prekey_id = 2;
        public_key = 52;
        signature = 62;
        uploaded_at = 200;
      }
      ∷ [];
  one_time_prekeys = bob_keys;
  pq_prekeys =
      record {
        device_id = 12;
        signal_prekey_id = 9;
        public_key = 59;
        signature = 69;
        prekey_type = last_resort;
        consumed = false;
      }
      ∷ [];
}

abbrev fetched : Reply × Db
fetched = fetch_bundle 11 (some 12) none stocked

abbrev bob_bundle : Bundle
bob_bundle = record {
  device = record {
    device_id = 12;
    user_id = 2;
    identity_public_key = 32;
    auth_public_key = 8 ∷ [];
    registration_id = 6;
    signal_device_id = 1;
    revoked = false;
  };
  signed = record {
    device_id = 12;
    signal_prekey_id = 2;
    public_key = 52;
    signature = 62;
    uploaded_at = 200;
  };
  one_time =
      some (record { device_id = 12; signal_prekey_id = 2; public_key = 42; consumed = false });
  pq_one_time = none;
  last_resort = record {
    device_id = 12;
    signal_prekey_id = 9;
    public_key = 59;
    signature = 69;
    prekey_type = last_resort;
    consumed = false;
  };
}

fetched_ok : fetched.0 ≡ bundle bob_bundle
unfolding fetch_bundle bundle_for check_permission with_device with_signed finish_bundle permitted
    ordered is_pair user_of is_active_device latest later available pq_available is_one_time
fetched_ok = refl

fetch_bundle-IsGranted_example : IsGranted 11 (some 12) none stocked bob_bundle fetched.1
fetch_bundle-IsGranted_example =
    fetch_bundle-IsGranted 11 (some 12) none stocked bob_bundle fetched_ok

IsUnique-keys : IsUnique bob_keys
unfolding is_key
IsUnique-keys = (refl, (refl, (refl, tt)))

abbrev ask : Ask
ask = record { requester = 11; target = some 12; name = none }

hand_outs-IsUnique_example : IsUnique (hand_outs (ask ∷ ask ∷ []) stocked)
hand_outs-IsUnique_example = hand_outs-IsUnique (ask ∷ ask ∷ []) stocked IsUnique-keys

cleanup-latest_example :
    latest 12 (cleanup 3000000000 stocked).signed_prekeys ≡ latest 12 stocked.signed_prekeys
cleanup-latest_example = cleanup-latest 3000000000 stocked 12

-- Two calls of the pair of 201 and 202, one in each direction.
abbrev pair : Pair
pair = ordered 201 202

abbrev table_1 : List Entry
table_1 = (take 1000 201 202 []).1

abbrev log_1 : List ℕ
log_1 = extend pair 1000 (ordered 201 202) (take 1000 201 202 []).0 []

abbrev table_2 : List Entry
table_2 = (take 2000 202 201 table_1).1

abbrev log_2 : List ℕ
log_2 = extend pair 2000 (ordered 202 201) (take 2000 202 201 table_1).0 log_1

two_calls : Run pair 2000 table_2 log_2
two_calls = call (call start 1000 201 202 (omega arith)) 2000 202 201 (omega arith)

Run-limit_example : count (select (recent 3000) log_2) ≤ per_window
Run-limit_example = Run-limit two_calls 3000 (omega arith)

abbrev ring : Signal
ring = record { from_uid = 201; to_uid = 202; payload = 3; ttl_ms = 30000 }

abbrev clock : Clock
clock = record { received_at = 1000; budget_at = 1001; sent_at = 1002 }

abbrev online : Net
online = record {
  clients = (12, record { socket_id = 1; open_state = true; buffered = 0; throws = false }) ∷ [];
  sent = [];
}

rings : (forward_signal clock true true 11 ring [] friends online).0 ≡ delivered
unfolding forward_signal from_sender sender_of within_budget to_peer push_signal peer_of is_peer
    device_of active_named is_device user_active permitted ordered is_pair take take_pair
    take_recent exhausted known has_key is_stale times_of expire set_times recent notify_client
    client_of deliverable within
rings = refl

forward_signal-IsDelivered_example :
    IsDelivered clock true true 11 ring [] friends online
      (forward_signal clock true true 11 ring [] friends online).2
forward_signal-IsDelivered_example =
    forward_signal-IsDelivered clock true true 11 ring [] friends online rings
