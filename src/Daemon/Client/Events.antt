-- ===== src/Daemon/Client/Events.antt =====
-- What can happen to a relay client between its construction and now.
use crypto_pigeon.Prelude.{
  ℕ, Bool, true, false, not, ◌&&◌, Option, none, some, List, [], ◌∷◌, ◌++◌, any, delete, ◌==◌,
  if◌then◌else◌,
}
use crypto_pigeon.Relay.Db.{Opaque}
use crypto_pigeon.Daemon.Client.{
  Login, Client, Token, ready, waits, begins, is_login, get_token, finish_login, accept_session,
  refuse_token, clear_session, start_watching, open_socket, push_envelope, close_socket,
  take_pushed_envelopes,
}

-- What can happen to a client.
pub data Event : Type 0 where
  asks : (now : ℕ) → (number : ℕ) → Event
  logs_in : (login : Login) → (locked : Bool) → (reply : Option (Opaque × ℕ)) → Event
  accepts : (token : Opaque) → (expires_at : ℕ) → Event
  refuses : (token : Opaque) → Event
  clears watches_directly watches takes : Event
  opens : (ws : ℕ) → (locked : Bool) → Event
  pushes : (ws : ℕ) → (envelope : Opaque) → Event
  closes : (ws : ℕ) → Event

-- A client with the logins under way, and the generation in which its token was asked for.
pub record Session : Type 0 where
  pub client : Client
  pub logins : List Login
  pub token_from : ℕ

abbrev pub begun : Token → List Login → List Login
begun (ready token) ls = ls
begun (waits l) ls = ls
begun (begins l) ls = ls ++ l ∷ []

abbrev pub is_installed : Login → Bool → Option (Opaque × ℕ) → Client → Bool
is_installed l locked none c = false
is_installed l locked (some reply) c = not locked && l.generation == c.generation

-- A login that is not under way cannot end.
unfoldable pub step : Event → Session → Session
unfolding get_token finish_login accept_session refuse_token clear_session start_watching
    open_socket push_envelope close_socket take_pushed_envelopes
step (asks now number) s =
    let (t, c) = get_token now number s.client in record s { client = c; logins = begun t s.logins }
step (logs_in l locked reply) s = if not (any (is_login l) s.logins) then s else record {
  client = finish_login l locked reply s.client;
  logins = delete (is_login l) s.logins;
  token_from = if is_installed l locked reply s.client then l.generation else s.token_from;
}
step (accepts token expires_at) s = record s {
  client = accept_session token expires_at s.client;
  token_from = s.client.generation;
}
step (refuses token) s = record s { client = refuse_token token s.client }
step clears s = record s { client = clear_session s.client }
step watches_directly s = record s { client = start_watching true s.client }
step watches s = record s { client = start_watching false s.client }
step takes s = record s { client = (take_pushed_envelopes s.client).1 }
step (opens ws locked) s = record s { client = open_socket ws locked s.client }
step (pushes ws envelope) s = record s { client = push_envelope ws envelope s.client }
step (closes ws) s = record s { client = close_socket ws s.client }

unfoldable pub run : List Event → Session → Session
run [] s = s
run (e ∷ es) s = run es (step e s)
