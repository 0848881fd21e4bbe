-- ===== src/Daemon/Account/Registering.antt =====
-- Registration takes effect as a whole, for the device that it names, or not at all.
use crypto_pigeon.Prelude.{
  ◌≡◌, refl, ap, subst, true, Option, none, some, arith, ◌==◌, Bool-cases, inl, inr,
}
use crypto_pigeon.Relay.Db.{Opaque}
use crypto_pigeon.Daemon.Account.{Account, Vault, Result, ok}
use crypto_pigeon.Daemon.Account.Signup.{
  Registration, set_user, set_activated, set_public, register, complete_for, complete_registration,
  has_user, is_registered, local_name, local_address,
}

-- What a registration has established: `claim` and `uid` were there before.
pub record IsRegistered (input : Registration) (v v' : Vault) : Type 0 where
  pub registered : is_registered v' ≡ true
  pub address : local_address v' ≡ ok input.user_id
  pub device : (a : Account) × (v.account ≡ some a) × (a.device_id ≡ input.device_id)
  pub token : v'.relay_token ≡ some input.session_token
  pub activation : v'.activation ≡ set_activated input.username v.activation
  pub claim : input.public_uid ≡ none → v'.access_claim ≡ v.access_claim
  pub published :
      (uid : Opaque)
      → input.public_uid ≡ some uid
      → (v'.public_uid ≡ some uid) × (v'.access_claim ≡ none)
  pub keys : v'.keys ≡ v.keys

register-IsRegistered :
    (input : Registration) (o : Option Opaque) (a : Account) (v : Vault)
    → input.public_uid ≡ o
    → v.account ≡ some a
    → (a.device_id == input.device_id) ≡ true
    → IsRegistered input v (
        set_public o (record v {
          account = set_user input.user_id v.account;
          relay_token = some input.session_token;
          activation = set_activated input.username v.activation;
        }))
unfolding set_public is_registered local_address local_name has_user set_user
register-IsRegistered input none a v e account same = record {
  registered = ground arith;
  address = ground arith;
  device = (a, account, ground arith);
  token = refl;
  activation = refl;
  claim = λ h. refl;
  published = λ uid h. absurd (cc (e, h));
  keys = refl;
}
register-IsRegistered input (some u) a v e account same = record {
  registered = ground arith;
  address = ground arith;
  device = (a, account, ground arith);
  token = refl;
  activation = refl;
  claim = λ h. absurd (cc (e, h));
  published = λ uid h. (cc (e, h), refl);
  keys = refl;
}

complete_for-IsRegistered :
    (input : Registration) (o : Option Account) (v v' : Vault)
    → v.account ≡ o
    → complete_for input o v ≡ (ok tt, v')
    → IsRegistered input v v'
unfolding complete_for register
complete_for-IsRegistered input none v v' e h = absurd (cc h)
complete_for-IsRegistered input (some a) v v' e h =
    elim (Bool-cases (a.device_id == input.device_id)) [
      | inr ne ↦ absurd (cc ((rw ne at h)))
      | inl same ↦
          let h' = rw same at h in
          subst (λ w. IsRegistered input v w) (ap (λ (p : Result (Unit {0}) × Vault). p.1) h')
            (register-IsRegistered input input.public_uid a v refl e same)
    ]

-- A registration that succeeds was for the device of this vault. The account, the relay session and
-- the activation are then all set, the access claim is dropped exactly where the relay named a
-- public uid, and no key has changed.
pub complete_registration-IsRegistered :
    (input : Registration) (v v' : Vault)
    → complete_registration input v ≡ (ok tt, v')
    → IsRegistered input v v'
unfolding complete_registration
complete_registration-IsRegistered input v v' h =
    complete_for-IsRegistered input v.account v v' refl h
