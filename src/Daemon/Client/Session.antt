-- ===== src/Daemon/Client/Session.antt =====
-- The sessions of the relay client, through logins that end after the session was cleared.
use crypto_pigeon.Prelude.{
  is_some, ltb, ==_refl, ℕ, zero, suc, ◌≤◌, ◌≡◌, refl, sym, ap, subst, ◌∙◌, Bool, true, false, not,
  ◌&&◌, ◌||◌, Option, none, some, List, [], ◌∷◌, ◌++◌, arith, any, All, select, delete, count, ◌==◌,
  if◌then◌else◌, Bool-cases, inl, inr,
}
use crypto_pigeon.Prelude.Rows.Laws.{All-append, All-delete}
use crypto_pigeon.Relay.Db.{Opaque}
use crypto_pigeon.Daemon.Client.{
  Login, Client, usable, is_login, refresh, token_or, get_token, install, settled, finish_login,
  accept_session, refuse_token, stop_events, clear_session, has_token, is_socket, start_watching,
  open_socket, push_envelope, close_socket, beyond, take_pushed_envelopes,
}
use crypto_pigeon.Daemon.Client.Events.{
  Event, asks, logs_in, accepts, refuses, clears, watches_directly, watches, takes, opens, pushes,
  closes, Session, begun, is_installed, step, run,
}

abbrev pub of_generation : ℕ → Login → Bool
of_generation g l = l.generation == g

abbrev flights : Option Login → List Login
flights none = []
flights (some l) = l ∷ []

abbrev is_own : ℕ → Option Login → Bool
is_own g none = true
is_own g (some l) = of_generation g l

record Holds (c : Client) (logins : List Login) (token_from : ℕ) : Type 0 where
  pub token : (not (is_some c.cached_token) || token_from == c.generation) ≡ true
  pub own : is_own c.generation c.refreshing ≡ true
  pub current : select (of_generation c.generation) logins ≡ flights c.refreshing
  pub old : All (λ l. l.generation ≤ c.generation) logins
  pub pushed : count c.pushed ≤ 256

either : (P : Client → Type 0) (b : Bool) (c c' : Client) → P c → P c' → P (if b then c else c')
either P true c c' h k = h
either P false c c' h k = k

select-delete_comm :
    (p q : Login → Bool) (ls : List Login) → select p (delete q ls) ≡ delete q (select p ls)
select-delete_comm p q [] = refl
select-delete_comm p q (l ∷ ls) = ground (arith, select-delete_comm p q ls)

select-append :
    (p : Login → Bool) (ls ms : List Login) → select p (ls ++ ms) ≡ select p ls ++ select p ms
select-append p [] ms = refl
select-append p (l ∷ ls) ms = ground (arith, select-append p ls ms)

select-none :
    (g : ℕ) (ls : List Login)
    → All (λ l. l.generation ≤ g) ls
    → select (of_generation (suc g)) ls ≡ []
select-none g [] h = refl
select-none g (l ∷ ls) (h, hs) = ground (arith, select-none g ls hs)

All-mono :
    (g : ℕ) (ls : List Login) → All (λ l. l.generation ≤ g) ls → All (λ l. l.generation ≤ suc g) ls
All-mono g [] h = tt
All-mono g (l ∷ ls) (h, hs) = (omega arith, All-mono g ls hs)

-- A login begins only if none is under way.
refresh-Holds :
    (number : ℕ) (o : Option Login) (c : Client) (ls : List Login) (g : ℕ)
    → c.refreshing ≡ o
    → Holds c ls g
    → Holds (refresh number o c).1 (begun (refresh number o c).0 ls) g
unfolding refresh
refresh-Holds number (some l) c ls g e h = h
refresh-Holds number none c ls g e h =
    let l : Login = record { generation = c.generation; number = number } in
    let none_there : select (of_generation c.generation) ls ≡ [] = h.current ∙ ap flights e in
    record {
      token = h.token;
      own = ground arith;
      current =
          select-append (of_generation c.generation) ls (l ∷ []) ∙ rw none_there (ground arith);
      old = All-append (λ m. m.generation ≤ c.generation) ls (l ∷ []) h.old (omega arith, tt);
      pushed = h.pushed;
    }

token_or-Holds :
    (number : ℕ) (o : Option Opaque) (c : Client) (ls : List Login) (g : ℕ)
    → Holds c ls g
    → Holds (token_or number o c).1 (begun (token_or number o c).0 ls) g
unfolding token_or
token_or-Holds number (some token) c ls g h = h
token_or-Holds number none c ls g h = refresh-Holds number c.refreshing c ls g refl h

settled-own :
    (l : Login) (o : Option Login) (g : ℕ) → is_own g o ≡ true → is_own g (settled l o) ≡ true
unfolding settled
settled-own l none g h = refl
settled-own l (some m) g h = ground arith

settled-flights :
    (l : Login) (o : Option Login) → delete (is_login l) (flights o) ≡ flights (settled l o)
unfolding settled
settled-flights l none = refl
settled-flights l (some m) = elim (Bool-cases (is_login l m)) [
  | inl t ↦ rw t refl
  | inr f ↦ rw f refl
]

-- What an ended login leaves, before its token is installed.
finish-Holds :
    (l : Login) (c : Client) (ls : List Login) (g : ℕ)
    → Holds c ls g
    → Holds (record c { refreshing = settled l c.refreshing }) (delete (is_login l) ls) g
finish-Holds l c ls g h = record {
  token = h.token;
  own = settled-own l c.refreshing c.generation h.own;
  current =
      select-delete_comm (of_generation c.generation) (is_login l) ls
      ∙ ap (delete (is_login l)) h.current
      ∙ settled-flights l c.refreshing;
  old = All-delete (λ m. m.generation ≤ c.generation) (is_login l) ls h.old;
  pushed = h.pushed;
}

install-Holds :
    (l : Login) (locked : Bool) (reply : Option (Opaque × ℕ)) (c : Client) (ls : List Login) (g : ℕ)
    → Holds c ls g
    → Holds
        (finish_login l locked reply c)
        (delete (is_login l) ls)
        (if is_installed l locked reply c then l.generation else g)
unfolding finish_login install
install-Holds l locked none c ls g h = finish-Holds l c ls g h
install-Holds l locked (some (token, expires_at)) c ls g h = elim (Bool-cases locked) [
  | inl t ↦ rw t (finish-Holds l c ls g h)
  | inr f ↦ elim (Bool-cases (l.generation == c.generation)) [
    | inr other ↦ rw (f, other) (finish-Holds l c ls g h)
    | inl same ↦
        let k = finish-Holds l c ls g h in
        rw (f, same)
          (record {
            token = same;
            own = k.own;
            current = k.current;
            old = k.old;
            pushed = k.pushed;
          })
  ]
]

clear-Holds : (c : Client) (ls : List Login) (g : ℕ) → Holds c ls g → Holds (clear_session c) ls g
unfolding clear_session stop_events
clear-Holds c ls g h = record {
  token = refl;
  own = refl;
  current = select-none c.generation ls h.old;
  old = All-mono c.generation ls h.old;
  pushed = omega arith;
}

count-snoc : (es : List Opaque) (e : Opaque) → count (es ++ e ∷ []) ≡ suc (count es)
count-snoc [] e = refl
count-snoc (x ∷ es) e = ground (arith, count-snoc es e)

count-beyond : (n : ℕ) (es : List Opaque) → count (beyond n es) ≤ count es
count-beyond zero es = omega arith
count-beyond (suc n) [] = omega arith
count-beyond (suc n) (e ∷ es) = let k = count-beyond n es in omega arith

push-Holds :
    (ws : ℕ) (envelope : Opaque) (c : Client) (ls : List Login) (g : ℕ)
    → Holds c ls g
    → Holds (push_envelope ws envelope c) ls g
unfolding push_envelope
push-Holds ws envelope c ls g h =
    elim (Bool-cases (is_socket ws c.socket && ltb (count c.pushed) 256)) [
      | inr f ↦ rw f h
      | inl t ↦ rw t (record {
        token = h.token;
        own = h.own;
        current = h.current;
        old = h.old;
        pushed = let e = count-snoc c.pushed envelope in ground arith;
      })
    ]

-- A change of the socket only.
socket-Holds :
    (c : Client) (ls : List Login) (g : ℕ) (watching : Bool) (socket : Option ℕ)
    → Holds c ls g
    → Holds (record c { watching = watching; socket = socket }) ls g
socket-Holds c ls g watching socket h = record {
  token = h.token;
  own = h.own;
  current = h.current;
  old = h.old;
  pushed = h.pushed;
}

refuse-Holds :
    (token : Opaque) (c : Client) (ls : List Login) (g : ℕ)
    → Holds c ls g
    → Holds (refuse_token token c) ls g
unfolding refuse_token
refuse-Holds token c ls g h =
    either (λ c'. Holds c' ls g) (has_token token c.cached_token)
      (record c { cached_token = none; expires_at = 0 }) c
      (record { token = refl; own = h.own; current = h.current; old = h.old; pushed = h.pushed }) h

abbrev Good : Session → Type 0
Good s = Holds s.client s.logins s.token_from

step-Good : (e : Event) (s : Session) → Good s → Good (step e s)
unfolding step get_token accept_session start_watching open_socket close_socket
    take_pushed_envelopes
step-Good (asks now number) s h =
    token_or-Holds number (usable now s.client) s.client s.logins s.token_from h
step-Good (logs_in l locked reply) s h = elim (Bool-cases (any (is_login l) s.logins)) [
  | inr f ↦ rw f h
  | inl t ↦ rw t (install-Holds l locked reply s.client s.logins s.token_from h)
]
step-Good (accepts token expires_at) s h = record {
  token = ==_refl s.client.generation;
  own = h.own;
  current = h.current;
  old = h.old;
  pushed = h.pushed;
}
step-Good (refuses token) s h = refuse-Holds token s.client s.logins s.token_from h
step-Good clears s h = clear-Holds s.client s.logins s.token_from h
step-Good watches_directly s h = h
step-Good watches s h =
    either (λ c. Holds c s.logins s.token_from) s.client.watching s.client
      (record s.client { watching = true }) h
      (socket-Holds s.client s.logins s.token_from true s.client.socket h)
step-Good takes s h = record {
  token = h.token;
  own = h.own;
  current = h.current;
  old = h.old;
  pushed = let k = count-beyond 256 s.client.pushed in let p = h.pushed in omega arith;
}
step-Good (opens ws locked) s h =
    either (λ c. Holds c s.logins s.token_from) (not s.client.watching || locked) s.client
      (record s.client { socket = some ws }) h
      (socket-Holds s.client s.logins s.token_from s.client.watching (some ws) h)
step-Good (pushes ws envelope) s h = push-Holds ws envelope s.client s.logins s.token_from h
step-Good (closes ws) s h =
    either (λ c. Holds c s.logins s.token_from) (is_socket ws s.client.socket)
      (record s.client { socket = none }) s.client
      (socket-Holds s.client s.logins s.token_from s.client.watching none h) h

run-Good : (es : List Event) (s : Session) → Good s → Good (run es s)
unfolding run
run-Good [] s h = h
run-Good (e ∷ es) s h = run-Good es (step e s) (step-Good e s h)

-- A client as it is constructed.
abbrev pub signed_out : Session
signed_out = record {
  client = record {
    cached_token = none;
    expires_at = 0;
    refreshing = none;
    generation = 0;
    pushed = [];
    watching = false;
    socket = none;
  };
  logins = [];
  token_from = 0;
}

pub record IsPresent (s : Session) : Type 0 where
  pub token : (not (is_some s.client.cached_token) || s.token_from == s.client.generation) ≡ true
  pub single : count (select (of_generation s.client.generation) s.logins) ≤ 1
  pub pushed : count s.client.pushed ≤ 256

flights-single : (o : Option Login) → count (flights o) ≤ 1
flights-single none = omega arith
flights-single (some l) = omega arith

-- Whatever a client is asked for and whenever its logins end, a token that it has was asked for, or
-- accepted, since the session was last cleared: a login from before leaves none behind. At most one
-- login of the present session is under way, and at most 256 pushed envelopes wait.
pub run-IsPresent : (es : List Event) → IsPresent (run es signed_out)
run-IsPresent es =
    let start : Good signed_out = record {
      token = refl;
      own = refl;
      current = refl;
      old = tt;
      pushed = omega arith;
    } in
    let h = run-Good es signed_out start in
    record {
      token = h.token;
      single =
          subst (λ ls. count ls ≤ 1) (sym h.current)
            (flights-single (run es signed_out).client.refreshing);
      pushed = h.pushed;
    }
