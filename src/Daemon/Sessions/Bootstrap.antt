-- ===== src/Daemon/Sessions/Bootstrap.antt =====
-- The bootstrap secret opens one session.
use crypto_pigeon.Prelude.{ℕ, ◌≡◌, ◌≢◌, refl, true, Option, none, some, arith, Bool-cases, inl, inr}
use crypto_pigeon.Relay.Db.{Opaque}
use crypto_pigeon.Daemon.Sessions.{
  State, is_given, invalid_bootstrap_secret, session_opened, open_session, boot_with, bootstrap,
}

is_given-same : (o : Option Opaque) (t : Opaque) → is_given o t ≡ true → o ≡ some t
unfolding is_given
is_given-same none t h = absurd (cc h)
is_given-same (some u) t h = ground arith

-- What a bootstrap has done where it opened a session.
abbrev pub Opened : ℕ → Opaque → Opaque → Option Opaque → Option Opaque → State → State → Type 0
Opened now cookie csrf given secret s s' =
    (given ≡ secret)
    × (given ≢ none)
    × (s'.bootstrap_secret ≡ none)
    × (s' ≡ (open_session now cookie csrf s).1)

boot_with-Opened :
    (now : ℕ) (cookie csrf c t : Opaque) (given secret : Option Opaque) (s : State)
    → (boot_with now cookie csrf given secret s).0 ≡ session_opened c t
    → Opened now cookie csrf given secret s (boot_with now cookie csrf given secret s).1
unfolding boot_with open_session
boot_with-Opened now cookie csrf c t given none s h = absurd (cc h)
boot_with-Opened now cookie csrf c t given (some secret) s h =
    elim (Bool-cases (is_given given secret)) [
      | inr wrong ↦ absurd (cc (rw wrong at h))
      | inl right ↦
          let same = is_given-same given secret right in
          rw right (same, (λ e. cc (same, e)), refl, refl)
    ]

boot_with-spent :
    (now : ℕ) (cookie csrf : Opaque) (given o : Option Opaque) (s : State)
    → o ≡ none
    → boot_with now cookie csrf given o s ≡ (invalid_bootstrap_secret, s)
unfolding boot_with
boot_with-spent now cookie csrf given none s e = refl
boot_with-spent now cookie csrf given (some secret) s e = absurd (cc e)

-- A bootstrap opens a session only for the secret that is set, and uses it up: every later bootstrap,
-- with whatever secret, is refused and changes nothing until a new secret is generated.
pub bootstrap_once :
    (now now' : ℕ) (cookie csrf cookie' csrf' c t : Opaque) (given given' : Option Opaque)
    (s : State)
    → (bootstrap now cookie csrf given s).0 ≡ session_opened c t
    → (given ≡ s.bootstrap_secret)
      × (given ≢ none)
      × (bootstrap now' cookie' csrf' given' (bootstrap now cookie csrf given s).1
          ≡ (invalid_bootstrap_secret, (bootstrap now cookie csrf given s).1))
unfolding bootstrap
bootstrap_once now now' cookie csrf cookie' csrf' c t given given' s h =
    let (same, there, spent, opened) =
      boot_with-Opened now cookie csrf c t given s.bootstrap_secret s h in
    (same, there, boot_with-spent now' cookie' csrf' given' _ _ spent)
