-- ===== src/Daemon/Account/Publishing.antt =====
-- apps/local-daemon/src/signal-store.ts: the bundle that ensureIdentity publishes.
use crypto_pigeon.Prelude.{Option, none, some, List, map, select, limit, leb}
use crypto_pigeon.Prelude.Rows.Sort.{sort_by}
use crypto_pigeon.Relay.Db.{Opaque}
use crypto_pigeon.Daemon.Keys.{Prekey, Keys, read_prekey}
use crypto_pigeon.Daemon.Account.{
  Account, AuthKey, Bundle, Draw, PublicKey, Reader, Result, SignedKey, Vault, constraint_failed,
  device_auth_key_missing, failed, kyber_prekey_not_found, ok, provision, signal_identity_missing,
  signed_prekey_not_found,
}

unfoldable pub public_key_of : Reader → Prekey → PublicKey
public_key_of r p = record { id = p.prekey_id; public_key = r.public_of p.bytes }

unfoldable pub signed_key_of : Reader → Prekey → SignedKey
signed_key_of r p = record {
  id = p.prekey_id;
  public_key = r.public_of p.bytes;
  signature = r.signature_of p.bytes;
}

unfoldable pub signed_record : Reader → Opaque → SignedKey
signed_record r bytes = record {
  id = r.id_of bytes;
  public_key = r.public_of bytes;
  signature = r.signature_of bytes;
}

-- `SELECT ... ORDER BY prekey_id LIMIT 100`
unfoldable pub first_prekeys : List Prekey → List Prekey
first_prekeys rows = limit 100 (sort_by (λ p. p.prekey_id) rows)

unfoldable pub bundle_from : Reader → Account → AuthKey → Opaque → Opaque → Keys → Bundle
unfolding public_key_of signed_key_of signed_record first_prekeys
bundle_from r a auth signed last ks = record {
  device_id = a.device_id;
  signal_device_id = 1;
  registration_id = a.registration_id;
  identity_public_key = r.identity_public a.identity_key_pair;
  device_auth_public_key = auth.public_key;
  signed_prekey = signed_record r signed;
  one_time_prekeys = map (public_key_of r) (first_prekeys ks.prekeys);
  pq_one_time_prekeys =
      map (signed_key_of r) (first_prekeys (select (λ p. leb 2 p.prekey_id) ks.kyber_prekeys));
  pq_last_resort_prekey = signed_record r last;
}

-- The reads of `ensureIdentity` in their order.
unfoldable pub with_last :
    Reader → Account → AuthKey → Opaque → Option Opaque → Keys → Result Bundle
unfolding bundle_from
with_last r a auth signed none ks = failed kyber_prekey_not_found
with_last r a auth signed (some last) ks = ok (bundle_from r a auth signed last ks)

unfoldable pub with_signed : Reader → Account → AuthKey → Option Opaque → Keys → Result Bundle
unfolding with_last
with_signed r a auth none ks = failed signed_prekey_not_found
with_signed r a auth (some signed) ks =
    with_last r a auth signed (read_prekey 1 ks.kyber_prekeys) ks

unfoldable pub with_auth : Reader → Account → Option AuthKey → Keys → Result Bundle
unfolding with_signed
with_auth r a none ks = failed device_auth_key_missing
with_auth r a (some auth) ks = with_signed r a auth (read_prekey 1 ks.signed_prekeys) ks

unfoldable pub publish : Reader → Option Account → Vault → Result Bundle
unfolding with_auth
publish r none v = failed signal_identity_missing
publish r (some a) v = with_auth r a v.auth_key v.keys

unfoldable pub published : Reader → Vault → Option Vault → Result Bundle × Vault
unfolding publish
published r v none = (failed constraint_failed, v)
published r v (some v') = (publish r v'.account v', v')

unfoldable pub ensure_for : Reader → Draw → Option Account → Vault → Result Bundle × Vault
unfolding published publish
ensure_for r d none v = published r v (provision d v)
ensure_for r d (some a) v = (publish r (some a) v, v)

unfoldable pub ensure_identity : Reader → Draw → Vault → Result Bundle × Vault
unfolding ensure_for
ensure_identity r d v = ensure_for r d v.account v
