-- ===== src/Examples/Accounts.antt =====
-- Logins and activations: auth.ts at concrete inputs.
use crypto_pigeon.Prelude.{
  ℕ, suc, ◌+◌, ◌<◌, ◌≤◌, ◌≡◌, ◌≢◌, refl, false, none, some, List, [], ◌∷◌, any, count, ◌==◌, arith,
  Text, text_eq,
}
use crypto_pigeon.Relay.Db.{Uuid, Opaque, Db}
use crypto_pigeon.Relay.Conversations.{user_active}
use crypto_pigeon.Relay.Prekeys.{Upload, is_key}
use crypto_pigeon.Relay.Auth.{
  Challenges, challenge_of, timing_safe_compare, is_active_device, Answer, LoginReply, logged_in,
  Verify, open_session, check_signature, check_answer, respond, device_active, valid_session,
  instance_allowed, check_instance, authenticated, authenticate,
}
use crypto_pigeon.Relay.Auth.Login.{IsLogin, respond-IsLogin}
use crypto_pigeon.Relay.Auth.Access.{IsAuthenticated, authenticate-IsAuthenticated}
use crypto_pigeon.Relay.Inserts.{
  insert_keys, is_pq_key, insert_pq_keys, insert_user, insert_device, insert_signed,
}
use crypto_pigeon.Relay.Activation.{
  new_request, insert_request, apply, Payload, Reply, created, fresh_uid, count_attempt, has_id,
  in_requests, Draw, new_user, new_device, prekey_tables, store, with_uid, register_account,
  committed, code_matches, attempt, is_expired, try_code, by_status, for_request, activate,
}
use crypto_pigeon.Relay.Activation.Uids.{has_uid, fresh_uid-total}
use crypto_pigeon.Relay.Activation.Accounts.{IsActivation, activate-IsActivation}
use crypto_pigeon.Relay.Activation.Attempts.{
  attempts_of, attempts, Step, invalid_codes, invalid_codes-limit,
}
use crypto_pigeon.Examples.Fixtures.{strangers}

-- A signature check that accepts one signature.
abbrev check_77 : Verify
check_77 key device challenge host signature = signature == 77

abbrev host : Text
host = b'r' ∷ []

abbrev answer : Answer
answer = record { device_id = 11; challenge = 900; signature = 77; relay_hostname = host }

abbrev handed_out : Challenges
handed_out = (11, record { challenge = 900; expires_at = 61000 }) ∷ []

abbrev login : LoginReply × Db × Challenges
login = respond check_77 (host ∷ []) 2000 555 answer (strangers, handed_out)

login_ok : login.0 ≡ logged_in 555 86402000
unfolding respond check_answer check_signature challenge_of is_active_device timing_safe_compare
    text_eq
login_ok = refl

respond-IsLogin_example :
    IsLogin check_77 (host ∷ []) 2000 answer handed_out strangers login.1 555 86402000
respond-IsLogin_example =
    respond-IsLogin check_77 (host ∷ []) 2000 555 answer strangers handed_out 555 86402000 login_ok

abbrev same_hash : Opaque → Opaque
same_hash x = x

let_through : authenticate same_hash 3000 (some 555) none login.1 ≡ authenticated 11
unfolding respond check_answer check_signature open_session challenge_of is_active_device
    timing_safe_compare text_eq authenticate check_instance valid_session device_active user_active
    instance_allowed
let_through = refl

authenticate-IsAuthenticated_example : IsAuthenticated same_hash 3000 555 none login.1 11
authenticate-IsAuthenticated_example =
    authenticate-IsAuthenticated same_hash 3000 555 none login.1 11 let_through

-- Carol applies, and activates with the code that she was given.
abbrev applied : Db
applied = (apply same_hash 1000 (record { request_id = 60; code = 4444 }) 103 strangers).1

abbrev key : ℕ → Upload
key id = record { id = id; public_key = 700; signature = 701 }

abbrev payload : Payload
payload = record {
  request_id = 60;
  activation_code = 4444;
  device_id = 13;
  identity_key = 33;
  auth_key = 9 ∷ [];
  registration_id = 1;
  signal_device_id = 1;
  signed_prekey = key 1;
  one_time_prekeys = key 1 ∷ key 2 ∷ [];
  pq_prekeys = key 1 ∷ [];
  last_resort_prekey = key 9;
}

abbrev draw : Draw
draw = record { user_id = 3; token = 888 }

-- The first uid of carol is bob's, the second is free.
abbrev uid_from : Uuid → ℕ → Opaque
uid_from user n = 202 + n

abbrev activation : Reply × Db
activation = activate same_hash uid_from 2000 draw payload applied

created_ok : activation.0 ≡ created 888 3 13 203
unfolding activate for_request by_status try_code attempt code_matches is_expired committed
    register_account with_uid store prekey_tables insert_user insert_device insert_signed
    insert_keys insert_pq_keys is_pq_key is_key fresh_uid in_requests count_attempt has_id apply
    insert_request new_request new_user new_device
created_ok = refl

activate-IsActivation_example :
    IsActivation same_hash uid_from 2000 draw payload 203 applied activation.1
activate-IsActivation_example =
    activate-IsActivation same_hash uid_from 2000 draw payload applied 888 3 13 203 created_ok

abbrev guesses : List Step
guesses =
    record { now = 1500; draw = draw; payload = record payload { activation_code = 1 } }
    ∷ record { now = 1600; draw = draw; payload = record payload { activation_code = 2 } }
    ∷ []

no_attempts : attempts 60 applied ≤ 5
unfolding attempts attempts_of apply insert_request new_request has_id
no_attempts = omega arith

invalid_codes-limit_example :
    invalid_codes same_hash uid_from 60 guesses applied + attempts 60 applied ≤ 5
invalid_codes-limit_example = invalid_codes-limit same_hash uid_from 60 guesses applied no_attempts

uids_apart : (i j : ℕ) → i < j → j ≤ count strangers.users → 202 + i ≢ 202 + j
uids_apart i j lt le e = absurd (omega arith)

fresh_uid-total_example :
    (found : Opaque) × (fresh_uid (suc (count strangers.users)) (uid_from 3) 0 strangers.users
      ≡ some found)
    × (any (has_uid found) strangers.users ≡ false)
fresh_uid-total_example = fresh_uid-total (uid_from 3) strangers.users uids_apart
