-- ===== src/Daemon/Account/Fresh.antt =====
-- The first prekeys of a device.
use crypto_pigeon.Prelude.{
  ℕ, zero, suc, ◌<◌, ◌≤◌, ◌≡◌, refl, ap, sym, ◌∙◌, false, some, List, [], ◌∷◌, ◌++◌, map, arith,
  any, select, limit, All, leb,
}
use mathlib.Core.List.{append_assoc, append-nil}
use crypto_pigeon.Prelude.Rows.Sort.{sort_by, insert_by}
use crypto_pigeon.Relay.Db.{Opaque}
use crypto_pigeon.Daemon.Keys.{Prekey, is_prekey}
use crypto_pigeon.Daemon.Account.{Reader, PublicKey, SignedKey, generate, insert_all}
use crypto_pigeon.Daemon.Account.Publishing.{public_key_of, signed_key_of}

abbrev pub prekey : ℕ → (ℕ → Opaque) → Prekey
prekey id make = record { prekey_id = id; bytes = make id }

-- Rows whose ids are below `first` leave room for the row `first`.
any-below :
    (first : ℕ) (rows : List Prekey)
    → All (λ p. p.prekey_id < first) rows
    → any (is_prekey first) rows ≡ false
unfolding is_prekey
any-below first [] h = refl
any-below first (p ∷ rows) h = ground (arith, any-below first rows)

All-snoc :
    (first : ℕ) (make : ℕ → Opaque) (rows : List Prekey)
    → All (λ p. p.prekey_id < first) rows
    → All (λ p. p.prekey_id < suc first) (rows ++ prekey first make ∷ [])
All-snoc first make [] h = (omega arith, tt)
All-snoc first make (p ∷ rows) h = (omega (arith, h.0), All-snoc first make rows h.1)

pub insert_all-generate :
    (first n : ℕ) (make : ℕ → Opaque) (rows : List Prekey)
    → All (λ p. p.prekey_id < first) rows
    → insert_all (generate first n make) rows ≡ some (rows ++ generate first n make)
unfolding insert_all generate
insert_all-generate first zero make rows h = ap some (sym (append-nil rows))
insert_all-generate first (suc n) make rows h = rw (any-below first rows h) (
    insert_all-generate (suc first) n make (rows ++ prekey first make ∷ [])
      (All-snoc first make rows h)
    ∙ ap some (append_assoc rows (prekey first make ∷ []) (generate (suc first) n make)))

insert_by-generate :
    (first n : ℕ) (make : ℕ → Opaque)
    → insert_by (λ (p : Prekey). p.prekey_id) (prekey first make) (generate (suc first) n make)
      ≡ prekey first make ∷ generate (suc first) n make
unfolding generate
insert_by-generate first zero make = refl
insert_by-generate first (suc n) make = ground arith

pub sort_by-generate :
    (first n : ℕ) (make : ℕ → Opaque)
    → sort_by (λ (p : Prekey). p.prekey_id) (generate first n make) ≡ generate first n make
unfolding generate
sort_by-generate first zero make = refl
sort_by-generate first (suc n) make =
    ap (insert_by (λ (p : Prekey). p.prekey_id) (prekey first make))
      (sort_by-generate (suc first) n make)
    ∙ insert_by-generate first n make

pub limit-generate :
    (first n : ℕ) (make : ℕ → Opaque) → limit n (generate first n make) ≡ generate first n make
unfolding generate
limit-generate first zero make = refl
limit-generate first (suc n) make =
    ap (λ ps. prekey first make ∷ ps) (limit-generate (suc first) n make)

pub select-generate :
    (first n : ℕ) (make : ℕ → Opaque)
    → 2 ≤ first
    → select (λ (p : Prekey). leb 2 p.prekey_id) (generate first n make) ≡ generate first n make
unfolding generate
select-generate first zero make h = refl
select-generate first (suc n) make h = ground (arith, select-generate (suc first) n make)

-- The public keys with the ids `first`, `first + 1`, ..., `n` of them.
unfoldable pub public_keys : Reader → ℕ → ℕ → (ℕ → Opaque) → List PublicKey
public_keys r first zero make = []
public_keys r first (suc n) make =
    record { id = first; public_key = r.public_of (make first) } ∷ public_keys r (suc first) n make

unfoldable pub signed_keys : Reader → ℕ → ℕ → (ℕ → Opaque) → List SignedKey
signed_keys r first zero make = []
signed_keys r first (suc n) make =
    record {
      id = first;
      public_key = r.public_of (make first);
      signature = r.signature_of (make first);
    }
    ∷ signed_keys r (suc first) n make

pub map-public :
    (r : Reader) (first n : ℕ) (make : ℕ → Opaque)
    → map (public_key_of r) (generate first n make) ≡ public_keys r first n make
unfolding public_keys generate public_key_of
map-public r first zero make = refl
map-public r first (suc n) make =
    ap (λ ks. record { id = first; public_key = r.public_of (make first) } ∷ ks)
      (map-public r (suc first) n make)

pub map-signed :
    (r : Reader) (first n : ℕ) (make : ℕ → Opaque)
    → map (signed_key_of r) (generate first n make) ≡ signed_keys r first n make
unfolding signed_keys generate signed_key_of
map-signed r first zero make = refl
map-signed r first (suc n) make =
    ap
      (λ ks.
        record {
          id = first;
          public_key = r.public_of (make first);
          signature = r.signature_of (make first);
        }
        ∷ ks)
      (map-signed r (suc first) n make)
