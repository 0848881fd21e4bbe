-- ===== src/Examples/Links.antt =====
-- The sockets and the boxes of the relay at concrete inputs.
use crypto_pigeon.Prelude.{
  ℕ, ◌≡◌, refl, true, false, none, some, List, [], ◌∷◌, text_eq, if◌then◌else◌,
}
use crypto_pigeon.Relay.Sockets.{Socket, Net, client_of}
use crypto_pigeon.Relay.Conversations.{permitted}
use crypto_pigeon.Relay.Auth.{authenticate}
use crypto_pigeon.Relay.Dropboxes.{exchanged, user_of, insert_ack, exchange_ack}
use crypto_pigeon.Relay.Dropboxes.Exchange.{IsExchanged, exchange_twice}
use crypto_pigeon.Relay.Connections.{Upgrade, upgrade, before_query, ws_path, token_of, destroyed}
use crypto_pigeon.Relay.Connections.Admission.{as_handshake, upgrade-authenticate}
use crypto_pigeon.Relay.Connections.Handover.{
  Event, connects, closes, apply_all, apply_all_map, Refines, apply_all-Refines,
}
use crypto_pigeon.Examples.Fixtures.{friends}

abbrev socket : ℕ → Socket
socket id = record { socket_id = id; open_state = true; buffered = 0; throws = false }

abbrev no_clients : Net
no_clients = record { clients = []; sent = [] }

no_clients-Refines : Refines no_clients (λ d. none)
unfolding client_of
no_clients-Refines d = refl

-- A device connects, connects again, and its first socket closes.
abbrev reconnection : List Event
reconnection = closes 11 (socket 1) ∷ connects 11 (socket 2) ∷ connects 11 (socket 1) ∷ []

apply_all-Refines_example :
    Refines (apply_all reconnection no_clients) (apply_all_map reconnection (λ d. none))
apply_all-Refines_example = apply_all-Refines reconnection no_clients (λ d. none) no_clients-Refines

abbrev handshake : Upgrade
handshake = record {
  url = b'/' ∷ b'w' ∷ b's' ∷ b'?' ∷ b't' ∷ [];
  bearer = some 9;
  query_token = none;
  vault_instance = none;
}

upgrade-authenticate_example : upgrade (λ h. h) 100 handshake friends ≡ (
    if text_eq (before_query handshake.url) ws_path
    then as_handshake
        (authenticate (λ h. h) 100 (token_of handshake) handshake.vault_instance friends)
    else destroyed)
upgrade-authenticate_example = upgrade-authenticate (λ h. h) 100 handshake friends

eleven_is_alice : user_of 11 friends ≡ some 1
unfolding user_of
eleven_is_alice = refl

twelve_is_bob : user_of 12 friends ≡ some 2
unfolding user_of
twelve_is_bob = refl

friends-permitted : permitted 1 2 friends.permissions ≡ true
unfolding permitted
friends-permitted = refl

exchange_twice_example :
    (exchange_ack 11 12 [] friends ≡ (exchanged false, insert_ack 1 2 [], friends))
    × IsExchanged 2 1 friends
        (exchange_ack 12 11 (insert_ack 1 2 []) friends).2
        (exchange_ack 12 11 (insert_ack 1 2 []) friends).1
        (exchange_ack 12 11 (insert_ack 1 2 []) friends).0
exchange_twice_example =
    exchange_twice 11 12 1 2 [] friends eleven_is_alice twelve_is_bob refl friends-permitted refl
