-- ===== src/Relay/Backup/Writes.antt =====
-- Who may write a backup, at which version, and what a write leaves in the table.
use crypto_pigeon.Prelude.{
  ℕ, ◌+◌, ◌≡◌, refl, ap, sym, ◌⊎◌, inl, inr, Bool, true, false, not, ◌&&◌, Option, none, some, List,
  [], ◌∷◌, ◌++◌, arith, text_eq_iff, length, find, update, Bool-cases,
}
use crypto_pigeon.Prelude.Rows.Laws.{any-find}
use crypto_pigeon.Relay.Db.{Uuid, Opaque, Device, Backup, Db}
use crypto_pigeon.Relay.Backup.{
  instance_of, write, with_signature, preflight, put_checked, Failure, Body, Reply, stored,
  for_token, Checked, refuse, go, Crypto, identical, is_identical, conflicts, check_device, row_of,
  overwrite, upsert, finish, transact, put, get, held_by_other, lock_of, take_over, check_lock,
  check_proof,
}

find-upsert_some :
    (c : Crypto) (body : Body) (rows : List Backup) (old : Backup)
    → find (for_token body.lookup_token) rows ≡ some old
    → old.writer_public_key ≡ body.writer_public_key
    → find
        (for_token body.lookup_token)
        (update (for_token body.lookup_token) (overwrite c body) rows)
      ≡ some (row_of c body)
unfolding overwrite for_token row_of
find-upsert_some c body [] old e k = absurd (cc e)
find-upsert_some c body (r ∷ rs) old e k = ground (arith, find-upsert_some c body rs old)

find-upsert_none :
    (c : Crypto) (body : Body) (rows : List Backup)
    → find (for_token body.lookup_token) rows ≡ none
    → find (for_token body.lookup_token) (rows ++ row_of c body ∷ []) ≡ some (row_of c body)
unfolding for_token row_of
find-upsert_none c body [] e = ground arith
find-upsert_none c body (r ∷ rs) e = ground (arith, find-upsert_none c body rs)

-- What `conflicts` lets through: the first version of a new token, or the owner's next version, or a
-- repetition.
record IsFree (c : Crypto) (body : Body) (old : Backup) : Type 0 where
  same_key : old.writer_public_key ≡ body.writer_public_key
  version :
      (body.version ≡ old.version + 1)
      ⊎ ((identical c body old ≡ true) × (body.version ≡ old.version))

same_writer :
    (c : Crypto) (body : Body) (old : Backup)
    → conflicts c body (some old) ≡ false
    → old.writer_public_key ≡ body.writer_public_key
unfolding conflicts
same_writer c body old e = ground (arith, text_eq_iff old.writer_public_key body.writer_public_key)

next_or_same :
    (c : Crypto) (body : Body) (old : Backup)
    → conflicts c body (some old) ≡ false
    → (body.version ≡ old.version + 1)
      ⊎ ((identical c body old ≡ true) × (body.version ≡ old.version))
unfolding conflicts
next_or_same c body old e = ground arith

conflicts-IsFree :
    (c : Crypto) (body : Body) (old : Backup)
    → conflicts c body (some old) ≡ false
    → IsFree c body old
conflicts-IsFree c body old e = record {
  same_key = same_writer c body old e;
  version = next_or_same c body old e;
}

get-upsert :
    (c : Crypto) (body : Body) (rows : List Backup) (o : Option Backup)
    → find (for_token body.lookup_token) rows ≡ o
    → conflicts c body o ≡ false
    → find (for_token body.lookup_token) (upsert c body rows) ≡ some (row_of c body)
unfolding upsert
get-upsert c body rows none e free =
    rw (any-find (for_token body.lookup_token) rows) (rw e (find-upsert_none c body rows e))
get-upsert c body rows (some old) e free =
    rw (any-find (for_token body.lookup_token) rows)
      (rw e (find-upsert_some c body rows old e (conflicts-IsFree c body old free).same_key))

go_db : Checked → Db → Db
go_db (go db) d = db
go_db (refuse r) d = d

pub go-injective : (a b : Db) → go a ≡ go b → a ≡ b
unfolding go_db
go-injective a b e = ap (λ (k : Checked). go_db k a) e

version_in : Reply → ℕ
version_in (stored v) = v
version_in _ = 0

pub stored-injective : (a b : ℕ) → stored a ≡ stored b → a ≡ b
unfolding version_in
stored-injective a b e = ap version_in e

take_over-backups :
    (same claim : Bool) (device : Uuid) (hash : Opaque) (db : Db)
    → (take_over same claim device hash db).backups ≡ db.backups
unfolding take_over
take_over-backups same claim device hash db = refl

check_lock-backups :
    (body : Body) (same : Bool) (device : Uuid) (hash : Opaque) (db db' : Db)
    → check_lock body same device hash db ≡ go db'
    → db'.backups ≡ db.backups
unfolding check_lock
check_lock-backups body same device hash db db' e =
    elim (Bool-cases (held_by_other hash (lock_of device db.locks) && not body.claim)) [
      | inl held ↦ absurd (cc (rw held at e))
      | inr free ↦
          rw (← go-injective _ db' (rw free at e))
            (take_over-backups same body.claim device hash db)
    ]

check_proof-backups :
    (c : Crypto) (body : Body) (same : Bool) (device : Uuid) (hash sig : Opaque) (o : Option Device)
    (db db' : Db)
    → check_proof c body same device hash sig o db ≡ go db'
    → db'.backups ≡ db.backups
unfolding check_proof
check_proof-backups c body same device hash sig none db db' e = absurd (cc e)
check_proof-backups c body same device hash sig (some d) db db' e =
    elim (Bool-cases (c.verify d.auth_public_key (instance_of hash) sig)) [
      | inl good ↦ check_lock-backups body same device hash db db' (rw good at e)
      | inr bad ↦ absurd (cc (rw bad at e))
    ]

pub check_device-backups :
    (c : Crypto) (body : Body) (same : Bool) (d h s : Option ℕ) (db db' : Db)
    → check_device c body same d h s db ≡ go db'
    → db'.backups ≡ db.backups
unfolding check_device
check_device-backups c body same none none none db db' e =
    ap (λ (x : Db). x.backups) (sym (go-injective db db' e))
check_device-backups c body same (some d) (some h) (some s) db db' e =
    check_proof-backups c body same d h s _ db db' e
check_device-backups c body same _ _ _ db db' e = absurd (cc e)

-- The version that a write may have, after what is stored for its token.
abbrev pub Follows : Crypto → Body → Option Backup → Type 0
Follows c body none = body.version ≡ 1
Follows c body (some old) =
    (old.writer_public_key ≡ body.writer_public_key)
    × ((body.version ≡ old.version + 1)
        ⊎ ((identical c body old ≡ true) × (body.version ≡ old.version)))

conflicts-Follows :
    (c : Crypto) (body : Body) (o : Option Backup) → conflicts c body o ≡ false → Follows c body o
conflicts-Follows c body none e = unfold conflicts in ground arith
conflicts-Follows c body (some old) e = (same_writer c body old e, next_or_same c body old e)

module _ (c : Crypto) (body : Body) where
  finish-stored :
      (o : Option Backup) (db : Db) (k : Checked) (v : ℕ)
      → ((db' : Db) → k ≡ go db' → db'.backups ≡ db.backups)
      → find (for_token body.lookup_token) db.backups ≡ o
      → conflicts c body o ≡ false
      → (finish c body o db k).0 ≡ stored v
      → (body.version ≡ v)
        × (find (for_token body.lookup_token) (finish c body o db k).1.backups
            ≡ some (row_of c body))
  unfolding finish
  finish-stored o db (refuse f) v keeps e free h = absurd (cc h)
  finish-stored o db (go db') v keeps e free h =
      elim (Bool-cases (is_identical c body o && not body.claim)) [
        | inl same ↦ absurd (cc (rw same at h))
        | inr new ↦ (
          stored-injective body.version v (rw new at h),
          rw new (get-upsert c body db'.backups o (rw (keeps db' refl) e) free),
        )
      ]

  transact-stored :
      (o : Option Backup) (db : Db) (v : ℕ)
      → find (for_token body.lookup_token) db.backups ≡ o
      → (transact c body o db).0 ≡ stored v
      → (body.version ≡ v)
        × Follows c body o
        × (find (for_token body.lookup_token) (transact c body o db).1.backups
            ≡ some (row_of c body))
  unfolding transact
  transact-stored o db v e h = elim (Bool-cases (conflicts c body o)) [
    | inl bad ↦ absurd (cc (rw bad at h))
    | inr free ↦
        let (version, back) =
          finish-stored o db
            (check_device c body (is_identical c body o) body.device_id body.instance_hash
              body.device_signature db)
            v
            (check_device-backups c body (is_identical c body o) body.device_id body.instance_hash
              body.device_signature db)
            e free (rw free at h) in
        (version, conflicts-Follows c body o free, rw free back)
  ]

-- The backup `b` has the fields of the body, under the writer's token, and the digest of its
-- ciphertext.
pub record IsCopy (c : Crypto) (body : Body) (b : Backup) : Type 0 where
  pub lookup_token : b.lookup_token ≡ body.lookup_token
  pub version : b.version ≡ body.version
  pub nonce : b.nonce ≡ body.nonce
  pub ciphertext : b.ciphertext ≡ body.ciphertext
  pub fragment7_shard : b.fragment7_shard ≡ body.fragment7_shard
  pub writer_public_key : b.writer_public_key ≡ body.writer_public_key
  pub signature : b.signature ≡ body.signature
  pub signed_at : b.signed_at ≡ body.updated_at
  pub device_id : b.device_id ≡ body.device_id
  pub instance_hash : b.instance_hash ≡ body.instance_hash
  pub device_signature : b.device_signature ≡ body.device_signature
  pub claim : b.claim ≡ body.claim
  pub digest : b.ciphertext_sha256 ≡ some (c.sha256 body.ciphertext)

row_of-IsCopy : (c : Crypto) (body : Body) → IsCopy c body (row_of c body)
unfolding row_of
row_of-IsCopy c body = record {
  lookup_token = refl;
  version = refl;
  nonce = refl;
  ciphertext = refl;
  fragment7_shard = refl;
  writer_public_key = refl;
  signature = refl;
  signed_at = refl;
  device_id = refl;
  instance_hash = refl;
  device_signature = refl;
  claim = refl;
  digest = refl;
}

-- What a stored backup has established.
pub record IsStored (c : Crypto) (body : Body) (before after : Db) (v : ℕ) : Type 0 where
  pub key_length : length body.writer_public_key ≡ 44
  pub signed : c.verify body.writer_public_key (write (with_signature 0 body)) body.signature ≡ true
  pub version : body.version ≡ v
  pub follows : Follows c body (get body.lookup_token before)
  pub backup : Backup
  pub read_back : get body.lookup_token after ≡ some backup
  pub copy : IsCopy c body backup

preflight-signed :
    (c : Crypto) (path digest : Option Opaque) (body : Body)
    → preflight c path digest body ≡ none
    → (length body.writer_public_key ≡ 44)
      × (c.verify body.writer_public_key (write (with_signature 0 body)) body.signature ≡ true)
unfolding preflight
preflight-signed c path digest body h = ground arith

put_checked-IsStored :
    (c : Crypto) (o : Option Failure) (path digest : Option Opaque) (body : Body) (db : Db) (v : ℕ)
    → preflight c path digest body ≡ o
    → (put_checked c o body db).0 ≡ stored v
    → IsStored c body db (put_checked c o body db).1 v
unfolding put_checked get
put_checked-IsStored c (some f) path digest body db v p h = absurd (cc h)
put_checked-IsStored c none path digest body db v p h =
    let (long, signed) = preflight-signed c path digest body p in
    let (version, follows, back) =
      transact-stored c body (find (for_token body.lookup_token) db.backups) db v refl h in
    record {
      key_length = long;
      signed = signed;
      version = version;
      follows = follows;
      backup = row_of c body;
      read_back = back;
      copy = row_of-IsCopy c body;
    }

-- A backup that is answered as stored carries a valid signature of its 44-byte writer's key, which is
-- the key of what was stored before under its token; its version is 1 for a new token, and otherwise
-- the next one or, for a repetition of the same backup, the same. What is read back under its token
-- then has every field of the body as it was sent, and the digest of the ciphertext.
pub put-IsStored :
    (c : Crypto) (path digest : Option Opaque) (body : Body) (db : Db) (v : ℕ)
    → (put c path digest body db).0 ≡ stored v
    → IsStored c body db (put c path digest body db).1 v
unfolding put
put-IsStored c path digest body db v h =
    put_checked-IsStored c (preflight c path digest body) path digest body db v refl h
