-- ===== src/Relay/Backup/Effects.antt =====
-- What a backup request changes beside its own row: no other token's row.
use crypto_pigeon.Prelude.{
  ◌≡◌, ◌≢◌, refl, ap, false, Option, none, some, List, [], ◌∷◌, ◌++◌, arith, find, update, ◌==◌,
  Bool-cases, inl, inr,
}
use crypto_pigeon.Relay.Db.{Opaque, Backup, Db}
use crypto_pigeon.Relay.Backup.{
  Body, Failure, for_token, Checked, refuse, go, Crypto, is_identical, conflicts, check_device,
  row_of, overwrite, upsert, finish, transact, preflight, put_checked, put, get,
}
use crypto_pigeon.Relay.Backup.Writes.{check_device-backups}

module _ (c : Crypto) (body : Body) where
  find-update_other :
      (token : Opaque) (rows : List Backup)
      → (body.lookup_token == token) ≡ false
      → find (for_token token) (update (for_token body.lookup_token) (overwrite c body) rows)
        ≡ find (for_token token) rows
  unfolding for_token overwrite
  find-update_other token [] ne = refl
  find-update_other token (r ∷ rs) ne = ground (arith, find-update_other token rs ne)

  find-append_other :
      (token : Opaque) (rows : List Backup)
      → (body.lookup_token == token) ≡ false
      → find (for_token token) (rows ++ row_of c body ∷ []) ≡ find (for_token token) rows
  unfolding for_token row_of
  find-append_other token [] ne = ground arith
  find-append_other token (r ∷ rs) ne = ground (arith, find-append_other token rs ne)

  find-upsert_other :
      (token : Opaque) (rows : List Backup)
      → (body.lookup_token == token) ≡ false
      → find (for_token token) (upsert c body rows) ≡ find (for_token token) rows
  unfolding upsert
  find-upsert_other token rows ne =
      ground (arith, find-update_other token rows ne, find-append_other token rows ne)

  finish-other :
      (token : Opaque) (o : Option Backup) (db : Db) (k : Checked)
      → (body.lookup_token == token) ≡ false
      → ((db' : Db) → k ≡ go db' → db'.backups ≡ db.backups)
      → find (for_token token) (finish c body o db k).1.backups ≡ find (for_token token) db.backups
  unfolding finish
  finish-other token o db (refuse g) ne keeps = refl
  finish-other token o db (go db') ne keeps =
      ground (
        arith,
        find-upsert_other token db'.backups ne,
        ap (find (for_token token)) (keeps db' refl),
      )

  transact-other :
      (token : Opaque) (o : Option Backup) (db : Db)
      → (body.lookup_token == token) ≡ false
      → find (for_token token) (transact c body o db).1.backups ≡ find (for_token token) db.backups
  unfolding transact
  transact-other token o db ne = elim (Bool-cases (conflicts c body o)) [
    | inl bad ↦ rw bad refl
    | inr free ↦ rw free (
        finish-other token o db
          (check_device c body (is_identical c body o) body.device_id body.instance_hash
            body.device_signature db)
          ne
          (check_device-backups c body (is_identical c body o) body.device_id body.instance_hash
            body.device_signature db))
  ]

  put_checked-other :
      (token : Opaque) (o : Option Failure) (db : Db)
      → (body.lookup_token == token) ≡ false
      → find (for_token token) (put_checked c o body db).1.backups
        ≡ find (for_token token) db.backups
  unfolding put_checked
  put_checked-other token (some f) db ne = refl
  put_checked-other token none db ne = transact-other token _ db ne

-- No backup request changes what is stored under another token.
pub get-put_other :
    (c : Crypto) (path digest : Option Opaque) (body : Body) (db : Db) (token : Opaque)
    → body.lookup_token ≢ token
    → get token (put c path digest body db).1 ≡ get token db
unfolding put get
get-put_other c path digest body db token ne =
    put_checked-other c body token (preflight c path digest body) db (ground arith)
