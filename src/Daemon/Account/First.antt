-- ===== src/Daemon/Account/First.antt =====
-- The first publication of a device's bundle.
use crypto_pigeon.Prelude.{ℕ, ◌≡◌, refl, ap, ◌∙◌, Option, none, some, [], ◌∷◌, arith, limit}
use crypto_pigeon.Relay.Db.{Opaque}
use crypto_pigeon.Daemon.Keys.{is_prekey, add_prekey, read_prekey, bytes_of}
use crypto_pigeon.Daemon.Account.{
  Account, Vault, Draw, Reader, Bundle, Result, ok, generate, insert_single, new_account, provision,
}
use crypto_pigeon.Daemon.Account.Publishing.{
  signed_record, first_prekeys, bundle_from, with_last, with_signed, with_auth, publish, published,
  ensure_for, ensure_identity,
}
use crypto_pigeon.Daemon.Account.Fresh.{
  prekey, insert_all-generate, sort_by-generate, limit-generate, select-generate, public_keys,
  signed_keys, map-public, map-signed,
}

-- A vault that holds no identity and no prekeys.
pub record IsBlank (v : Vault) : Type 0 where
  pub no_account : v.account ≡ none
  pub no_auth : v.auth_key ≡ none
  pub no_signed : v.keys.signed_prekeys ≡ []
  pub no_prekeys : v.keys.prekeys ≡ []
  pub no_kyber : v.keys.kyber_prekeys ≡ []

unfoldable pub fresh_vault : Draw → Vault → Vault
fresh_vault d v = record v {
  account = some (new_account d);
  auth_key = some d.auth;
  keys = record v.keys {
    prekeys = generate 1 100 d.one_time;
    signed_prekeys = record { prekey_id = 1; bytes = d.signed } ∷ [];
    kyber_prekeys = prekey 1 d.kyber ∷ generate 2 100 d.kyber;
  };
}

unfoldable pub fresh_bundle : Reader → Draw → Bundle
fresh_bundle r d = record {
  device_id = d.device_id;
  signal_device_id = 1;
  registration_id = d.registration_id;
  identity_public_key = r.identity_public d.identity;
  device_auth_public_key = d.auth.public_key;
  signed_prekey = signed_record r d.signed;
  one_time_prekeys = public_keys r 1 100 d.one_time;
  pq_one_time_prekeys = signed_keys r 2 100 d.kyber;
  pq_last_resort_prekey = signed_record r (d.kyber 1);
}

provision-blank : (d : Draw) (v : Vault) → IsBlank v → provision d v ≡ some (fresh_vault d v)
unfolding provision fresh_vault insert_single add_prekey
provision-blank d v h =
    rw (h.no_auth, h.no_signed, h.no_prekeys, h.no_kyber)
      (rw (insert_all-generate 1 100 d.one_time [] tt)
        (rw (insert_all-generate 2 100 d.kyber (prekey 1 d.kyber ∷ []) (omega arith, tt)) refl))

first-generate :
    (first : ℕ) (make : ℕ → Opaque)
    → first_prekeys (generate first 100 make) ≡ generate first 100 make
unfolding first_prekeys
first-generate first make =
    ap (limit 100) (sort_by-generate first 100 make) ∙ limit-generate first 100 make

publish-fresh :
    (r : Reader) (d : Draw) (v : Vault)
    → publish r (some (new_account d)) (fresh_vault d v) ≡ ok (fresh_bundle r d)
unfolding publish with_auth with_signed with_last fresh_vault fresh_bundle read_prekey bytes_of
    is_prekey bundle_from new_account
publish-fresh r d v =
    rw (first-generate 1 d.one_time, map-public r 1 100 d.one_time)
      (rw (select-generate 2 100 d.kyber (omega arith))
        (rw (first-generate 2 d.kyber) (rw (map-signed r 2 100 d.kyber) refl)))

-- The first call in a blank vault generates and publishes an identity: a hundred one-time prekeys
-- with the ids 1 to 100, a hundred post-quantum ones with the ids 2 to 101, and the last resort
-- key, which has id 1 and is not among them. All of them are stored.
pub ensure_identity-fresh :
    (r : Reader) (d : Draw) (v : Vault)
    → IsBlank v
    → ensure_identity r d v ≡ (ok (fresh_bundle r d), fresh_vault d v)
unfolding ensure_identity ensure_for published fresh_vault
ensure_identity-fresh r d v h =
    ap (λ (o : Option Account). ensure_for r d o v) h.no_account
    ∙ ap (published r v) (provision-blank d v h)
    ∙ ap (λ (res : Result Bundle). (res, fresh_vault d v)) (publish-fresh r d v)
