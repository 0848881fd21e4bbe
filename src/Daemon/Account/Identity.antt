-- ===== src/Daemon/Account/Identity.antt =====
-- The identity of a device: made once, with its prekeys, and published from then on.
use crypto_pigeon.Prelude.{◌≡◌, refl, ap, sym, subst, ◌∙◌, Option, none, some, arith}
use crypto_pigeon.Daemon.Account.{
  Account, Vault, Draw, Reader, Bundle, Result, ok, new_account, provision,
}
use crypto_pigeon.Daemon.Account.Publishing.{publish, published, ensure_for, ensure_identity}

provision-account :
    (d : Draw) (v w : Vault) → provision d v ≡ some w → w.account ≡ some (new_account d)
unfolding provision
provision-account d v w h = ground arith

abbrev paired : Vault → Result Bundle → Result Bundle × Vault
paired w res = (res, w)

ensure_made :
    (r : Reader) (d : Draw) (w : Vault) (a : Account) (b : Bundle)
    → w.account ≡ some a
    → publish r w.account w ≡ ok b
    → ensure_identity r d w ≡ (ok b, w)
unfolding ensure_identity ensure_for
ensure_made r d w a b e h =
    ap (λ (o : Option Account). ensure_for r d o w) e
    ∙ ap (λ (o : Option Account). paired w (publish r o w)) (sym e)
    ∙ ap (paired w) h

published_once :
    (r : Reader) (d' : Draw) (v v' : Vault) (o : Option Vault) (b : Bundle)
    → ((w : Vault) → o ≡ some w → (a : Account) × (w.account ≡ some a))
    → published r v o ≡ (ok b, v')
    → ensure_identity r d' v' ≡ (ok b, v')
unfolding published
published_once r d' v v' none b made h = absurd (cc h)
published_once r d' v v' (some w) b made h =
    let (a, e) = made w refl in
    let same : w ≡ v' = ap (λ (p : Result Bundle × Vault). p.1) h in
    let bundle : publish r w.account w ≡ ok b = ap (λ (p : Result Bundle × Vault). p.0) h in
    subst (λ u. ensure_identity r d' u ≡ (ok b, u)) same (ensure_made r d' w a b e bundle)

ensure_for_once :
    (r : Reader) (d d' : Draw) (v v' : Vault) (o : Option Account) (b : Bundle)
    → v.account ≡ o
    → ensure_for r d o v ≡ (ok b, v')
    → ensure_identity r d' v' ≡ (ok b, v')
unfolding ensure_for
ensure_for_once r d d' v v' none b e h =
    published_once r d' v v' (provision d v) b
      (λ w made. (new_account d, provision-account d v w made)) h
ensure_for_once r d d' v v' (some a) b e h =
    let same : v ≡ v' = ap (λ (p : Result Bundle × Vault). p.1) h in
    let bundle : publish r (some a) v ≡ ok b = ap (λ (p : Result Bundle × Vault). p.0) h in
    subst (λ u. ensure_identity r d' u ≡ (ok b, u)) same
      (ensure_made r d' v a b e (ap (λ (q : Option Account). publish r q v) e ∙ bundle))

-- Once the identity of a device has been published, every later call, with whatever random values,
-- publishes the same bundle and changes nothing.
pub ensure_identity_once :
    (r : Reader) (d d' : Draw) (v v' : Vault) (b : Bundle)
    → ensure_identity r d v ≡ (ok b, v')
    → ensure_identity r d' v' ≡ (ok b, v')
ensure_identity_once r d d' v v' b h =
    ensure_for_once r d d' v v' v.account b refl (unfold ensure_identity in h)
