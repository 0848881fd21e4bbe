-- ===== src/Daemon/Account.antt =====
-- apps/local-daemon/src/signal-store.ts: the device's own identity, its first prekeys, and its
-- registration. Key pairs and records are opaque numbers; how libsignal reads a record is an argument.
pub mod Publishing
pub mod Signup
pub mod Identity
pub mod Fresh
pub mod First
pub mod Registering
use crypto_pigeon.Prelude.{◌>>=◌, ℕ, zero, suc, Bool, Option, none, some, List, [], ◌∷◌}
use crypto_pigeon.Relay.Db.{Opaque}
use crypto_pigeon.Daemon.Keys.{Prekey, Keys, add_prekey}

-- The row of `signal_account`.
pub record Account : Type 0 where
  pub identity_key_pair : Opaque
  pub registration_id : ℕ
  pub user_id : Option Opaque
  pub device_id : Opaque

-- The row of `device_auth_key`.
pub record AuthKey : Type 0 where
  pub private_key : Opaque
  pub public_key : Opaque

-- The row of `activation_state`; `activated` stands for its status.
pub record Activation : Type 0 where
  pub request_id : Opaque
  pub username : Opaque
  pub activated : Bool

-- The tables with one row at most, beside the stores of keys.
pub record Vault : Type 0 where
  pub account : Option Account
  pub auth_key : Option AuthKey
  pub relay_token : Option Opaque
  pub activation : Option Activation
  pub public_uid : Option Opaque
  pub access_claim : Option Opaque
  pub keys : Keys

-- What `ensureIdentity` generates: the record of each prekey by its id.
pub record Draw : Type 0 where
  pub identity : Opaque
  pub registration_id : ℕ
  pub device_id : Opaque
  pub auth : AuthKey
  pub signed : Opaque
  pub one_time : ℕ → Opaque
  pub kyber : ℕ → Opaque

-- What libsignal reads from a serialized record.
pub record Reader : Type 0 where
  pub identity_public : Opaque → Opaque
  pub id_of : Opaque → ℕ
  pub public_of : Opaque → Opaque
  pub signature_of : Opaque → Opaque

pub record PublicKey : Type 0 where
  pub id : ℕ
  pub public_key : Opaque

pub record SignedKey : Type 0 where
  pub id : ℕ
  pub public_key : Opaque
  pub signature : Opaque

-- `PublishedPreKeyBundle`
pub record Bundle : Type 0 where
  pub device_id : Opaque
  pub signal_device_id : ℕ
  pub registration_id : ℕ
  pub identity_public_key : Opaque
  pub device_auth_public_key : Opaque
  pub signed_prekey : SignedKey
  pub one_time_prekeys : List PublicKey
  pub pq_one_time_prekeys : List SignedKey
  pub pq_last_resort_prekey : SignedKey

pub data Fault : Type 0 where
  signal_identity_missing device_auth_key_missing signed_prekey_not_found kyber_prekey_not_found :
      Fault
  constraint_failed local_device_id_mismatch remote_account_not_registered : Fault

pub data Result (A : Type 0) : Type 0 where
  ok : A → Result A
  failed : Fault → Result A

abbrev pub or_fail : {A : Type 0} → Option A → Fault → Result A
or_fail none e = failed e
or_fail (some a) e = ok a

-- The rows that the loop `for (id = first; ...; id++)` pushes, `n` of them.
unfoldable pub generate : ℕ → ℕ → (ℕ → Opaque) → List Prekey
generate first zero make = []
generate first (suc n) make =
    record { prekey_id = first; bytes = make first } ∷ generate (suc first) n make

-- `INSERT`s one after the other; `none` where an id is taken already, which undoes the transaction.
unfoldable pub insert_all : List Prekey → List Prekey → Option (List Prekey)
unfolding add_prekey
insert_all [] rows = some rows
insert_all (p ∷ ps) rows = do rows' ← add_prekey p rows; insert_all ps rows'

-- The INSERT into a table with one row at most.
unfoldable pub insert_single : Option AuthKey → AuthKey → Option AuthKey
insert_single none key = some key
insert_single (some old) key = none

unfoldable pub new_account : Draw → Account
new_account d = record {
  identity_key_pair = d.identity;
  registration_id = d.registration_id;
  user_id = none;
  device_id = d.device_id;
}

-- The transaction that saves a new identity; the last resort key has id 1.
unfoldable pub provision : Draw → Vault → Option Vault
unfolding insert_single add_prekey new_account
provision d v = do
  auth ← insert_single v.auth_key d.auth
  signed ← add_prekey (record { prekey_id = 1; bytes = d.signed }) v.keys.signed_prekeys
  prekeys ← insert_all (generate 1 100 d.one_time) v.keys.prekeys
  last ← add_prekey (record { prekey_id = 1; bytes = d.kyber 1 }) v.keys.kyber_prekeys
  kyber ← insert_all (generate 2 100 d.kyber) last
  some (record v {
    account = some (new_account d);
    auth_key = some auth;
    keys = record v.keys { prekeys = prekeys; signed_prekeys = signed; kyber_prekeys = kyber };
  })
