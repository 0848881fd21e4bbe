-- ===== src/Examples/Talk.antt =====
-- Requests, their acceptance, and messages: conversations.ts and queue.ts at concrete inputs.
use crypto_pigeon.Prelude.{◌≤◌, ◌≡◌, refl, true, false, none, some, [], ◌∷◌, any, arith, Text}
use crypto_pigeon.Relay.Db.{Db}
use crypto_pigeon.Relay.Sockets.{Net}
use crypto_pigeon.Relay.Conversations.{
  user_active, current_user_id, same_pair, insert_request, named, request_from, request_as,
  request_contact, waiting_for, ordered, is_pair, grant, has_id, commit_accept, can_accept,
  accept_row, accept_as, accept, is_pending, permitted,
}
use crypto_pigeon.Relay.Conversations.Consent.{
  agreed, Reach, here, next, requests, accepts, permitted-agreed,
}
use crypto_pigeon.Relay.Queue.{SendBody, ttl_of, expiry_of, is_ephemeral, user_of, send, pending}
use crypto_pigeon.Relay.Queue.Pending.{carries, send-pending}
use crypto_pigeon.Examples.Fixtures.{strangers, friends, repeated}

abbrev asked : Db
asked = (request_contact 1000 50 11 102 strangers).1

abbrev answered : Db
answered = (accept 2000 50 12 asked).1

asked_then_answered : Reach strangers answered
asked_then_answered =
    next (next here (requests 1000 50 11 102 strangers)) (accepts 2000 50 12 asked)

may_talk : permitted 2 1 answered.permissions ≡ true
unfolding permitted ordered is_pair accept accept_as accept_row commit_accept grant can_accept
    waiting_for has_id is_pending request_contact request_as request_from insert_request same_pair
    named current_user_id user_active
may_talk = refl

permitted-agreed_example : any (agreed 2 1) answered.requests ≡ true
permitted-agreed_example = permitted-agreed refl asked_then_answered 2 1 may_talk

abbrev envelope_id : Text
envelope_id = repeated 32 b'A'

abbrev hello : SendBody
hello = record {
  envelope_id = envelope_id;
  mailbox_id = 12;
  ciphertext = 1 ∷ 2 ∷ [];
  typing = false;
  ttl_ms = none;
  created_at_ms = none;
}

abbrev offline : Net
offline = record { clients = []; sent = [] }

from_alice : user_of 11 friends.devices ≡ some 1
unfolding user_of
from_alice = refl

to_bob : user_of 12 friends.devices ≡ some 2
unfolding user_of
to_bob = refl

permitted_pair : permitted 1 2 friends.permissions ≡ true
unfolding permitted ordered is_pair
permitted_pair = refl

is_kept : is_ephemeral hello ≡ false
unfolding is_ephemeral ttl_of
is_kept = refl

not_expired : 5000 ≤ expiry_of 1000 hello
unfolding expiry_of ttl_of
not_expired = omega arith

send-pending_example :
    any (carries 11 hello) (pending 5000 12 (send 1000 11 hello (friends, offline)).1).0 ≡ true
send-pending_example =
    send-pending 1000 5000 11 1 2 hello friends offline from_alice to_bob permitted_pair is_kept
      refl refl refl not_expired
