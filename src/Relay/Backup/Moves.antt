-- ===== src/Relay/Backup/Moves.antt =====
-- The vault's move to another device instance: its lock, and the sessions that a claim ends.
use crypto_pigeon.Prelude.{
  ℕ, ◌≡◌, refl, Bool, true, false, not, ◌&&◌, ◌||◌, Option, none, some, List, [], ◌∷◌, ◌++◌, arith,
  find, any, update, ◌==◌, Bool-cases, inl, inr,
}
use crypto_pigeon.Prelude.Rows.Laws.{any-delete_none}
use crypto_pigeon.Relay.Db.{Uuid, Opaque, Device, Session, VaultLock, Backup, Db}
use crypto_pigeon.Relay.Backup.{
  Body, Failure, stored, Checked, refuse, go, Crypto, is_identical, conflicts, lock_of,
  held_by_other, set_lock, take_over, check_lock, check_proof, check_device, finish, transact,
  preflight, put_checked, put, instance_of,
}
use crypto_pigeon.Relay.Backup.Writes.{go-injective}

abbrev pub hash_of : Option VaultLock → Option Opaque
hash_of none = none
hash_of (some l) = some l.instance_hash

abbrev pub has_session : Uuid → List Session → Bool
has_session device sessions = any (λ s. s.device_id == device) sessions

lock_of-set_lock :
    (device : Uuid) (hash : Opaque) (locks : List VaultLock)
    → hash_of (lock_of device (set_lock device hash locks)) ≡ some hash
unfolding lock_of set_lock
lock_of-set_lock device hash locks = elim (Bool-cases (any (λ l. l.device_id == device) locks)) [
  | inl e ↦ rw e (updated locks e)
  | inr e ↦ rw e (added locks e)
]
  where
    updated :
        (ls : List VaultLock)
        → any (λ l. l.device_id == device) ls ≡ true
        → hash_of (
            find
              (λ l. l.device_id == device)
              (update (λ l. l.device_id == device) (λ l. record l { instance_hash = hash }) ls))
          ≡ some hash
    updated [] e = absurd (cc e)
    updated (l ∷ ls) e = ground (arith, updated ls)

    added :
        (ls : List VaultLock)
        → any (λ l. l.device_id == device) ls ≡ false
        → hash_of (
            find
              (λ l. l.device_id == device)
              (ls ++ record { device_id = device; instance_hash = hash } ∷ []))
          ≡ some hash
    added [] e = ground arith
    added (l ∷ ls) e = ground (arith, added ls)

-- The effect of a backup with a device proof on that device.
pub record IsMoved (c : Crypto) (body : Body) (device : Uuid) (hash : Opaque) (before after : Db)
    : Type 0 where
  pub prover : Device
  pub proof : Opaque
  pub prover_row : find (λ d. d.device_id == device && not d.revoked) before.devices ≡ some prover
  pub proved : c.verify prover.auth_public_key (instance_of hash) proof ≡ true
  pub free_or_claimed :
      (body.claim || not (held_by_other hash (lock_of device before.locks))) ≡ true
  pub locked : hash_of (lock_of device after.locks) ≡ some hash
  pub sessions :
      has_session device after.sessions ≡ (not body.claim && has_session device before.sessions)

some_eq : (a b : ℕ) → ◌≡◌ {A = Option ℕ} (some a) (some b) → a ≡ b
some_eq a b e = ground arith

take_over-sessions :
    (same claim : Bool) (device : Uuid) (hash : Opaque) (db : Db)
    → has_session device (take_over same claim device hash db).sessions
      ≡ (not claim && has_session device db.sessions)
unfolding take_over
take_over-sessions same true device hash db =
    any-delete_none (λ (s : Session). s.device_id == device)
      (λ (s : Session). s.device_id == device) db.sessions (λ s h. h)
take_over-sessions same false device hash db = refl

take_over-locked :
    (same claim : Bool) (device : Uuid) (hash : Opaque) (db : Db)
    → (not same || claim) ≡ true
    → hash_of (lock_of device (take_over same claim device hash db).locks) ≡ some hash
unfolding take_over
take_over-locked same claim device hash db h = rw h (lock_of-set_lock device hash db.locks)

module _ (c : Crypto) (body : Body) (same : Bool) (device : Uuid) (hash : Opaque) (db db' : Db)
    (writes : (not same || body.claim) ≡ true) where
  check_lock-IsMoved :
      (sig : Opaque) (d : Device)
      → find (λ d. d.device_id == device && not d.revoked) db.devices ≡ some d
      → c.verify d.auth_public_key (instance_of hash) sig ≡ true
      → check_lock body same device hash db ≡ go db'
      → IsMoved c body device hash db db'
  unfolding check_lock
  check_lock-IsMoved sig d row good e =
      elim (Bool-cases (held_by_other hash (lock_of device db.locks) && not body.claim)) [
        | inl held ↦ absurd (cc (rw held at e))
        | inr free ↦
            let after =
              go-injective (take_over same body.claim device hash db) db' (rw free at e) in
            record {
              prover = d;
              proof = sig;
              prover_row = row;
              proved = good;
              free_or_claimed = ground arith;
              locked = rw (← after) (take_over-locked same body.claim device hash db writes);
              sessions = rw (← after) (take_over-sessions same body.claim device hash db);
            }
      ]

  check_proof-IsMoved :
      (sig : Opaque) (o : Option Device)
      → find (λ d. d.device_id == device && not d.revoked) db.devices ≡ o
      → check_proof c body same device hash sig o db ≡ go db'
      → IsMoved c body device hash db db'
  unfolding check_proof
  check_proof-IsMoved sig none row e = absurd (cc e)
  check_proof-IsMoved sig (some d) row e =
      elim (Bool-cases (c.verify d.auth_public_key (instance_of hash) sig)) [
        | inl good ↦ check_lock-IsMoved sig d row good (rw good at e)
        | inr bad ↦ absurd (cc (rw bad at e))
      ]

  check_device-IsMoved :
      (d h s : Option ℕ)
      → d ≡ some device
      → h ≡ some hash
      → check_device c body same d h s db ≡ go db'
      → IsMoved c body device hash db db'
  unfolding check_device
  check_device-IsMoved none none none p q e = absurd (cc p)
  check_device-IsMoved (some d) (some h) (some s) p q e =
      check_proof-IsMoved s _ refl (rw (some_eq d device p, some_eq h hash q) at e)
  check_device-IsMoved _ _ _ p q e = cc

module _ (c : Crypto) (body : Body) (device : Uuid) (hash : Opaque)
    (named : body.device_id ≡ some device) (instance_named : body.instance_hash ≡ some hash) where
  finish-IsMoved :
      (o : Option Backup) (db : Db) (k : Checked) (v : ℕ)
      → ((db' : Db)
          → (not (is_identical c body o) || body.claim) ≡ true
          → k ≡ go db'
          → IsMoved c body device hash db db')
      → (finish c body o db k).0 ≡ stored v
      → IsMoved c body device hash db (finish c body o db k).1
  unfolding finish
  finish-IsMoved o db (refuse f) v moved h = absurd (cc h)
  finish-IsMoved o db (go db') v moved h =
      elim (Bool-cases (is_identical c body o && not body.claim)) [
        | inl same ↦ absurd (cc (rw same at h))
        | inr new ↦
            let m = moved db' (ground arith) refl in
            rw new (record {
              prover = m.prover;
              proof = m.proof;
              prover_row = m.prover_row;
              proved = m.proved;
              free_or_claimed = m.free_or_claimed;
              locked = m.locked;
              sessions = m.sessions;
            })
      ]

  transact-IsMoved :
      (o : Option Backup) (db : Db) (v : ℕ)
      → (transact c body o db).0 ≡ stored v
      → IsMoved c body device hash db (transact c body o db).1
  unfolding transact
  transact-IsMoved o db v h = elim (Bool-cases (conflicts c body o)) [
    | inl bad ↦ absurd (cc (rw bad at h))
    | inr free ↦ rw free (
        finish-IsMoved o db
          (check_device c body (is_identical c body o) body.device_id body.instance_hash
            body.device_signature db)
          v
          (λ db' writes e.
            check_device-IsMoved c body (is_identical c body o) device hash db db' writes
              body.device_id body.instance_hash body.device_signature named instance_named e)
          (rw free at h))
  ]

  put_checked-IsMoved :
      (o : Option Failure) (db : Db) (v : ℕ)
      → (put_checked c o body db).0 ≡ stored v
      → IsMoved c body device hash db (put_checked c o body db).1
  unfolding put_checked
  put_checked-IsMoved (some f) db v h = absurd (cc h)
  put_checked-IsMoved none db v h = transact-IsMoved _ db v h

-- A stored backup that names a device and a vault instance carries the signature of that active
-- device over the instance; without a claim, the device was not locked to another instance; with one,
-- all sessions of the device are ended. Afterwards the device is locked to the instance named.
pub put-IsMoved :
    (c : Crypto) (path digest : Option Opaque) (body : Body) (db : Db) (v : ℕ) (device : Uuid)
    (hash : Opaque)
    → body.device_id ≡ some device
    → body.instance_hash ≡ some hash
    → (put c path digest body db).0 ≡ stored v
    → IsMoved c body device hash db (put c path digest body db).1
unfolding put
put-IsMoved c path digest body db v device hash named instance_named h =
    put_checked-IsMoved c body device hash named instance_named (preflight c path digest body) db v
      h
