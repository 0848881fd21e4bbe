-- ===== src/Daemon/Account/Signup.antt =====
-- apps/local-daemon/src/signal-store.ts: the registration of the account at the relay.
use crypto_pigeon.Prelude.{Bool, true, false, not, Option, none, some, ◌==◌, is_some, if◌then◌else◌}
use crypto_pigeon.Relay.Db.{Opaque}
use crypto_pigeon.Daemon.Account.{
  Account, Activation, AuthKey, Result, Vault, device_auth_key_missing, failed,
  local_device_id_mismatch, ok, or_fail, remote_account_not_registered, signal_identity_missing,
}

unfoldable pub get_device_auth_key_pair : Vault → Result AuthKey
get_device_auth_key_pair v = or_fail v.auth_key device_auth_key_missing

unfoldable pub set_user : Opaque → Option Account → Option Account
set_user user none = none
set_user user (some a) = some (record a { user_id = some user })

unfoldable pub set_account : Opaque → Vault → Vault
unfolding set_user
set_account user v = record v { account = set_user user v.account }

unfoldable pub has_user : Option Account → Bool
has_user none = false
has_user (some a) = is_some a.user_id

unfoldable pub is_registered : Vault → Bool
unfolding has_user
is_registered v = has_user v.account

-- What the relay answered to the activation.
pub record Registration : Type 0 where
  pub user_id : Opaque
  pub device_id : Opaque
  pub username : Opaque
  pub session_token : Opaque
  pub public_uid : Option Opaque

unfoldable pub set_activated : Opaque → Option Activation → Option Activation
set_activated username none = none
set_activated username (some a) = some (record a { username = username; activated = true })

unfoldable pub set_public : Option Opaque → Vault → Vault
set_public none v = v
set_public (some uid) v = record v { public_uid = some uid; access_claim = none }

unfoldable pub register : Registration → Vault → Vault
unfolding set_user set_activated set_public
register input v = set_public input.public_uid (record v {
  account = set_user input.user_id v.account;
  relay_token = some input.session_token;
  activation = set_activated input.username v.activation;
})

unfoldable pub complete_for : Registration → Option Account → Vault → Result (Unit {0}) × Vault
unfolding register
complete_for input none v = (failed signal_identity_missing, v)
complete_for input (some a) v =
    if not (a.device_id == input.device_id)
    then (failed local_device_id_mismatch, v)
    else (ok tt, register input v)

unfoldable pub complete_registration : Registration → Vault → Result (Unit {0}) × Vault
unfolding complete_for
complete_registration input v = complete_for input v.account v

unfoldable pub local_name : Option Account → Result Opaque
local_name none = failed signal_identity_missing
local_name (some a) = or_fail a.user_id remote_account_not_registered

-- `localAddress().name()`
unfoldable pub local_address : Vault → Result Opaque
unfolding local_name
local_address v = local_name v.account
