-- ===== src/Daemon/Keys/Records.antt =====
-- The stores of prekeys and sessions as tables by their key.
use crypto_pigeon.Prelude.{
  ℕ, ◌≡◌, refl, ap, sym, ◌∙◌, ◌&&◌, ◌++◌, false, none, some, List, [], ◌∷◌, arith, any, update,
  delete, ◌==◌, if◌then◌else◌, Bool-cases, inl, inr,
}
use crypto_pigeon.Prelude.Rows.Finds.{find-delete_self}
use crypto_pigeon.Prelude.Rows.Laws.{find-delete}
use crypto_pigeon.Relay.Db.{Opaque}
use crypto_pigeon.Daemon.Keys.{
  Prekey, Keys, is_prekey, put_prekey, bytes_of, read_prekey, get_prekey, remove_prekey,
}

abbrev written : Opaque → Prekey → Prekey
written bytes p = record p { bytes = bytes }

read-update :
    (i j : ℕ) (bytes : Opaque) (rows : List Prekey)
    → read_prekey j (update (is_prekey i) (written bytes) rows)
      ≡ (if i == j && any (is_prekey j) rows then some bytes else read_prekey j rows)
unfolding read_prekey bytes_of is_prekey
read-update i j bytes [] = ground arith
read-update i j bytes (p ∷ rows) = ground (arith, read-update i j bytes rows)

read-append :
    (i j : ℕ) (bytes : Opaque) (rows : List Prekey)
    → any (is_prekey i) rows ≡ false
    → read_prekey j (rows ++ record { prekey_id = i; bytes = bytes } ∷ [])
      ≡ (if i == j then some bytes else read_prekey j rows)
unfolding read_prekey bytes_of is_prekey
read-append i j bytes [] h = ground arith
read-append i j bytes (p ∷ rows) h = ground (arith, read-append i j bytes rows)

-- A look-up after a write finds what was written at its id, and elsewhere what was there before.
pub read_prekey-put_prekey :
    (i j : ℕ) (bytes : Opaque) (rows : List Prekey)
    → read_prekey j (put_prekey i bytes rows) ≡ (if i == j then some bytes else read_prekey j rows)
unfolding put_prekey
read_prekey-put_prekey i j bytes rows = elim (Bool-cases (any (is_prekey i) rows)) [
  | inr new ↦ rw new (read-append i j bytes rows new)
  | inl old ↦ rw old (
      read-update i j bytes rows ∙ elim (Bool-cases (i == j)) [
        | inr ne ↦ rw ne refl
        | inl same ↦
            let e : i ≡ j = ground arith in
            rw (same, ap (λ (k : ℕ). any (is_prekey k) rows) (sym e), old) refl
      ])
]

-- A one-time prekey that libsignal has used and removed is not found again, and no other is lost.
pub get_prekey-remove_prekey :
    (i j : ℕ) (ks : Keys)
    → get_prekey j (remove_prekey i ks) ≡ (if i == j then none else get_prekey j ks)
unfolding get_prekey remove_prekey
get_prekey-remove_prekey i j ks = elim (Bool-cases (i == j)) [
  | inl same ↦
      let e : i ≡ j = ground arith in
      rw same (
        rw (ap (λ (k : ℕ). delete (is_prekey k) ks.prekeys) e)
          (unfold read_prekey in ap bytes_of (find-delete_self (is_prekey j) ks.prekeys)))
  | inr ne ↦ rw ne (
      unfold read_prekey in
      ap bytes_of (
        find-delete (is_prekey j) (is_prekey i) ks.prekeys
          (λ p h. unfold is_prekey in ground arith)))
]
