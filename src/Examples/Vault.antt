-- ===== src/Examples/Vault.antt =====
-- The shares of the vault key and the local session at concrete inputs.
use crypto_pigeon.Prelude.{
  ℕ, zero, suc, ◌≡◌, ◌≢◌, refl, Bool, true, false, Option, none, some, List, [], ◌∷◌, ◌++◌, map,
}
use crypto_pigeon.Relay.Db.{Opaque}
use crypto_pigeon.Daemon.Shares.{Buffer, xor_all, split_seven, reconstruct_seven}
use crypto_pigeon.Daemon.Shares.Reconstruction.{AreShares, reconstruct_seven-split_seven}
use crypto_pigeon.Daemon.Shares.Hiding.{Fits, six_shares_hide}
use crypto_pigeon.Daemon.Sessions.{
  State, Request, pass, is_given, origin_allowed, live_session, check_vault, check_session,
  verify_local_session, BootReply, invalid_bootstrap_secret, session_opened, open_session,
  boot_with, bootstrap,
}
use crypto_pigeon.Daemon.Sessions.Gate.{IsVerified, verify_local_session-IsVerified}
use crypto_pigeon.Daemon.Sessions.Bootstrap.{bootstrap_once}

abbrev stripes : Bool → ℕ → Buffer
stripes b zero = []
stripes true (suc n) = true ∷ stripes false n
stripes false (suc n) = false ∷ stripes true n

abbrev random : List Buffer
random =
    stripes true 384
    ∷ stripes false 384
    ∷ stripes true 384
    ∷ stripes true 384
    ∷ stripes false 384
    ∷ stripes false 384
    ∷ []

abbrev secret : Buffer
secret = stripes false 384

random-AreShares : AreShares random
random-AreShares = (refl, (refl, (refl, (refl, (refl, (refl, tt))))))

splits : split_seven random secret ≡ some (random ++ xor_all secret random ∷ [])
unfolding split_seven
splits = refl

reconstruct_seven-split_seven_example :
    reconstruct_seven (map some (random ++ xor_all secret random ∷ [])) ≡ some secret
reconstruct_seven-split_seven_example =
    reconstruct_seven-split_seven random secret (random ++ xor_all secret random ∷ []) refl
      random-AreShares splits

-- The third share is missing, and the secret may be another.
six_shares_hide_example :
    (random' : List Buffer) × Fits
      (stripes true 384 ∷ stripes false 384 ∷ [])
      (stripes true 384 ∷ stripes false 384 ∷ stripes false 384 ∷ xor_all secret random ∷ [])
      (stripes true 384)
      random'
    × ((other : List Buffer)
        → Fits
            (stripes true 384 ∷ stripes false 384 ∷ [])
            (stripes true 384 ∷ stripes false 384 ∷ stripes false 384 ∷ xor_all secret random ∷ [])
            (stripes true 384)
            other
        → other ≡ random')
six_shares_hide_example =
    six_shares_hide random (stripes true 384 ∷ stripes false 384 ∷ [])
      (stripes true 384 ∷ stripes false 384 ∷ stripes false 384 ∷ xor_all secret random ∷ []) secret
      (stripes true 384) (stripes true 384) refl random-AreShares splits refl

abbrev started : State
started = record {
  active_session = none;
  bootstrap_secret = some 9000;
  allowed_host = 3100;
  allowed_origin = 3101;
}

abbrev opened : BootReply × State
opened = bootstrap 1000 71 72 (some 9000) started

opens : opened.0 ≡ session_opened 71 72
unfolding bootstrap boot_with is_given open_session
opens = refl

bootstrap_once_example :
    (some 9000 ≡ started.bootstrap_secret)
    × (◌≢◌ {A = Option Opaque} (some 9000) none)
    × (bootstrap 2000 73 74 (some 9000) opened.1 ≡ (invalid_bootstrap_secret, opened.1))
bootstrap_once_example =
    bootstrap_once 1000 2000 71 72 73 74 71 72 (some 9000) (some 9000) started opens

abbrev write_request : Request
write_request = record {
  host = some 3100;
  origin = none;
  is_api = true;
  is_open = false;
  before_unlock = false;
  is_write = true;
  cookie = some 71;
  csrf = some 72;
}

passes : verify_local_session 2000 write_request false opened.1 ≡ pass
unfolding verify_local_session is_given origin_allowed check_session live_session check_vault
    bootstrap boot_with open_session
passes = refl

verify_local_session-IsVerified_example : IsVerified 2000 write_request false opened.1
verify_local_session-IsVerified_example =
    verify_local_session-IsVerified 2000 write_request false opened.1 refl passes
