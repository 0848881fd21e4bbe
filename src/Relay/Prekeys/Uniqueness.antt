-- ===== src/Relay/Prekeys/Uniqueness.antt =====
-- The uniqueness constraint of the table of one-time prekeys.
use crypto_pigeon.Prelude.{
  inl, inr, Bool-cases, ℕ, ◌≡◌, refl, false, List, [], ◌∷◌, ◌++◌, arith, any, update,
}
use crypto_pigeon.Prelude.Rows.Laws.{any-append}
use crypto_pigeon.Relay.Db.{Uuid, OneTimePrekey}
use crypto_pigeon.Relay.Prekeys.{Upload, is_key, upsert_one_time, upsert_all, available}
use crypto_pigeon.Relay.Prekeys.Handout.{consume_first, spend}

-- `UNIQUE(device_id, signal_prekey_id)`
abbrev pub IsUnique : List OneTimePrekey → Type 0
IsUnique [] = Unit
IsUnique (r ∷ rs) = (any (is_key r.device_id r.signal_prekey_id) rs ≡ false) × IsUnique rs

any_key-consume :
    (device : Uuid) (d : Uuid) (id : ℕ) (rs : List OneTimePrekey)
    → any (is_key d id) (consume_first (available device) spend rs) ≡ any (is_key d id) rs
unfolding consume_first is_key
any_key-consume device d id [] = refl
any_key-consume device d id (r ∷ rs) = ground (arith, any_key-consume device d id rs)

pub consume-IsUnique :
    (device : Uuid) (rs : List OneTimePrekey)
    → IsUnique rs
    → IsUnique (consume_first (available device) spend rs)
unfolding consume_first
consume-IsUnique device [] h = tt
consume-IsUnique device (r ∷ rs) h =
    ground
      (arith, consume-IsUnique device rs, any_key-consume device r.device_id r.signal_prekey_id rs)

any_key-renew :
    (device d : Uuid) (id : ℕ) (u : Upload) (rs : List OneTimePrekey)
    → any (is_key d id) (
        update
          (is_key device u.id)
          (λ r. record r { public_key = u.public_key; consumed = false })
          rs)
      ≡ any (is_key d id) rs
unfolding is_key
any_key-renew device d id u [] = refl
any_key-renew device d id u (r ∷ rs) = ground (arith, any_key-renew device d id u rs)

renew-IsUnique :
    (device : Uuid) (u : Upload) (rs : List OneTimePrekey)
    → IsUnique rs
    → IsUnique (
        update
          (is_key device u.id)
          (λ r. record r { public_key = u.public_key; consumed = false })
          rs)
renew-IsUnique device u [] h = tt
renew-IsUnique device u (r ∷ rs) h =
    ground
      (arith, renew-IsUnique device u rs, any_key-renew device r.device_id r.signal_prekey_id u rs)

is_key_comm :
    (row r : OneTimePrekey)
    → is_key row.device_id row.signal_prekey_id r ≡ is_key r.device_id r.signal_prekey_id row
unfolding is_key
is_key_comm row r = ground arith

added-IsUnique :
    (row : OneTimePrekey) (rs : List OneTimePrekey)
    → any (is_key row.device_id row.signal_prekey_id) rs ≡ false
    → IsUnique rs
    → IsUnique (rs ++ row ∷ [])
added-IsUnique row [] new h = (refl, tt)
added-IsUnique row (r ∷ rs) new h = ground (
  arith,
  added-IsUnique row rs,
  any-append (is_key r.device_id r.signal_prekey_id) rs (row ∷ []),
  is_key_comm row r,
)

upsert-IsUnique :
    (device : Uuid) (u : Upload) (rs : List OneTimePrekey)
    → IsUnique rs
    → IsUnique (upsert_one_time device u rs)
unfolding upsert_one_time
upsert-IsUnique device u rs h = elim (Bool-cases (any (is_key device u.id) rs)) [
  | inl e ↦ rw e (renew-IsUnique device u rs h)
  | inr e ↦ rw e (
      added-IsUnique
        (record {
          device_id = device;
          signal_prekey_id = u.id;
          public_key = u.public_key;
          consumed = false;
        })
        rs e h)
]

-- Uploading keeps the keys of each device distinct.
pub upsert_all-IsUnique :
    (device : Uuid) (us : List Upload) (rs : List OneTimePrekey)
    → IsUnique rs
    → IsUnique (upsert_all device us rs)
unfolding upsert_all
upsert_all-IsUnique device [] rs h = h
upsert_all-IsUnique device (u ∷ us) rs h =
    upsert_all-IsUnique device us (upsert_one_time device u rs) (upsert-IsUnique device u rs h)
