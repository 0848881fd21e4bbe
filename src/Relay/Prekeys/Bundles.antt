-- ===== src/Relay/Prekeys/Bundles.antt =====
-- What a fetched bundle promises, and that a bundle that is refused consumes nothing.
use crypto_pigeon.Prelude.{
  ◌≡◌, refl, ap, true, Option, none, some, find, Bool-cases, inl, inr, sym, ◌∙◌,
}
use crypto_pigeon.Relay.Db.{Uuid, Opaque, Device, SignedPrekey, PqPrekey, Db}
use crypto_pigeon.Relay.Conversations.{permitted}
use crypto_pigeon.Relay.Queue.{user_of}
use crypto_pigeon.Relay.Auth.{is_active_device}
use crypto_pigeon.Relay.Prekeys.{available, pq_available}
use crypto_pigeon.Relay.Prekeys.Handout.{
  latest, Failure, Bundle, Reply, failed, bundle, is_last_resort, consumed_db, finish_bundle,
  with_signed, with_device, check_permission, bundle_for, goes_by, resolve, fetch_bundle,
}

finish_bundle-failed :
    (target : Uuid) (d : Device) (s : SignedPrekey) (o : Option PqPrekey) (db : Db) (f : Failure)
    → (finish_bundle target d s o db).0 ≡ failed f
    → (finish_bundle target d s o db).1 ≡ db
unfolding finish_bundle
finish_bundle-failed target d s none db f h = refl
finish_bundle-failed target d s (some last) db f h = absurd (cc h)

with_signed-failed :
    (target : Uuid) (d : Device) (o : Option SignedPrekey) (db : Db) (f : Failure)
    → (with_signed target d o db).0 ≡ failed f
    → (with_signed target d o db).1 ≡ db
unfolding with_signed
with_signed-failed target d none db f h = refl
with_signed-failed target d (some s) db f h =
    finish_bundle-failed target d s (find (is_last_resort target) db.pq_prekeys) db f h

with_device-failed :
    (target : Uuid) (o : Option Device) (db : Db) (f : Failure)
    → (with_device target o db).0 ≡ failed f
    → (with_device target o db).1 ≡ db
unfolding with_device
with_device-failed target none db f h = refl
with_device-failed target (some d) db f h =
    with_signed-failed target d (latest target db.signed_prekeys) db f h

check_permission-failed :
    (target : Uuid) (u1 u2 : Option Uuid) (db : Db) (f : Failure)
    → (check_permission target u1 u2 db).0 ≡ failed f
    → (check_permission target u1 u2 db).1 ≡ db
unfolding check_permission
check_permission-failed target none u2 db f h = refl
check_permission-failed target (some u1) none db f h = refl
check_permission-failed target (some u1) (some u2) db f h =
    elim (Bool-cases (permitted u1 u2 db.permissions)) [
      | inl good ↦ rw good (with_device-failed target _ db f (rw good at h))
      | inr bad ↦ rw bad refl
    ]

bundle_for-failed :
    (requester target : Uuid) (db : Db) (f : Failure)
    → (bundle_for requester target db).0 ≡ failed f
    → (bundle_for requester target db).1 ≡ db
unfolding bundle_for
bundle_for-failed requester target db f h = check_permission-failed target _ _ db f h

resolve-failed :
    (requester : Uuid) (o : Option Device) (db : Db) (f : Failure)
    → (resolve requester o db).0 ≡ failed f
    → (resolve requester o db).1 ≡ db
unfolding resolve
resolve-failed requester none db f h = refl
resolve-failed requester (some d) db f h = bundle_for-failed requester d.device_id db f h

-- A bundle that is refused, for whatever reason, consumes no prekey: the
-- database is as it was.
pub fetch_bundle-failed :
    (requester : Uuid) (target : Option Uuid) (name : Option Opaque) (db : Db) (f : Failure)
    → (fetch_bundle requester target name db).0 ≡ failed f
    → (fetch_bundle requester target name db).1 ≡ db
unfolding fetch_bundle
fetch_bundle-failed requester none none db f h = refl
fetch_bundle-failed requester (some target) none db f h = bundle_for-failed requester target db f h
fetch_bundle-failed requester target (some name) db f h =
    resolve-failed requester (find (goes_by name db.users) db.devices) db f h

-- The device that a request asks for: the one that it names by its id, or the first unrevoked one of a
-- user of the name.
abbrev pub Asks : Option Uuid → Option Opaque → Db → Uuid → Type 0
Asks none none db t = ⊥
Asks (some target) none db t = t ≡ target
Asks target (some name) db t =
    (d : Device) × (find (goes_by name db.users) db.devices ≡ some d) × (t ≡ d.device_id)

-- What the transaction has done for `requester`, for the device `target`, in the state `before`.
pub record IsHanded (requester : Uuid) (before : Db) (b : Bundle) (target : Uuid) (after : Db)
    : Type 0 where
  pub sender : Uuid
  pub recipient : Uuid
  pub sender_user : user_of requester before.devices ≡ some sender
  pub recipient_user : user_of target before.devices ≡ some recipient
  pub approved : permitted sender recipient before.permissions ≡ true
  pub active : find (is_active_device target) before.devices ≡ some b.device
  pub newest : latest target before.signed_prekeys ≡ some b.signed
  pub fallback : find (is_last_resort target) before.pq_prekeys ≡ some b.last_resort
  pub first_key : b.one_time ≡ find (available target) before.one_time_prekeys
  pub first_pq_key : b.pq_one_time ≡ find (pq_available target) before.pq_prekeys
  pub consumption : after ≡ consumed_db target before

bundle_of : Reply → Bundle → Bundle
bundle_of (failed f) b = b
bundle_of (bundle b') b = b'

finish_bundle-parts :
    (target : Uuid) (d : Device) (s : SignedPrekey) (o : Option PqPrekey) (db : Db) (b : Bundle)
    → (finish_bundle target d s o db).0 ≡ bundle b
    → (o ≡ some b.last_resort)
      × (b.device ≡ d)
      × (b.signed ≡ s)
      × (b.one_time ≡ find (available target) db.one_time_prekeys)
      × (b.pq_one_time ≡ find (pq_available target) db.pq_prekeys)
      × ((finish_bundle target d s o db).1 ≡ consumed_db target db)
unfolding finish_bundle bundle_of
finish_bundle-parts target d s none db b h = absurd (cc h)
finish_bundle-parts target d s (some last) db b h =
    let e = ap (λ r. bundle_of r b) h in
    (
      ap (λ (c : Bundle). some c.last_resort) e,
      ap (λ (c : Bundle). c.device) (sym e),
      ap (λ (c : Bundle). c.signed) (sym e),
      ap (λ (c : Bundle). c.one_time) (sym e),
      ap (λ (c : Bundle). c.pq_one_time) (sym e),
      refl,
    )

with_signed-parts :
    (target : Uuid) (d : Device) (o : Option SignedPrekey) (db : Db) (b : Bundle)
    → (with_signed target d o db).0 ≡ bundle b
    → (o ≡ some b.signed)
      × (find (is_last_resort target) db.pq_prekeys ≡ some b.last_resort)
      × (b.device ≡ d)
      × (b.one_time ≡ find (available target) db.one_time_prekeys)
      × (b.pq_one_time ≡ find (pq_available target) db.pq_prekeys)
      × ((with_signed target d o db).1 ≡ consumed_db target db)
unfolding with_signed
with_signed-parts target d none db b h = absurd (cc h)
with_signed-parts target d (some s) db b h =
    let (last, device, signed, first, first_pq, used) =
      finish_bundle-parts target d s (find (is_last_resort target) db.pq_prekeys) db b h in
    (ap some (sym signed), last, device, first, first_pq, used)

module _ (requester : Uuid) (db : Db) (b : Bundle) where
  with_device-IsHanded :
      (u1 u2 target : Uuid) (o : Option Device)
      → user_of requester db.devices ≡ some u1
      → user_of target db.devices ≡ some u2
      → permitted u1 u2 db.permissions ≡ true
      → find (is_active_device target) db.devices ≡ o
      → (with_device target o db).0 ≡ bundle b
      → IsHanded requester db b target (with_device target o db).1
  unfolding with_device
  with_device-IsHanded u1 u2 target none e1 e2 good e h = absurd (cc h)
  with_device-IsHanded u1 u2 target (some d) e1 e2 good e h =
      let (newest, last, device, first, first_pq, used) =
        with_signed-parts target d (latest target db.signed_prekeys) db b h in
      record {
        sender = u1;
        recipient = u2;
        sender_user = e1;
        recipient_user = e2;
        approved = good;
        active = e ∙ ap some (sym device);
        newest = newest;
        fallback = last;
        first_key = first;
        first_pq_key = first_pq;
        consumption = used;
      }

  check_permission-IsHanded :
      (target : Uuid) (u1 u2 : Option Uuid)
      → user_of requester db.devices ≡ u1
      → user_of target db.devices ≡ u2
      → (check_permission target u1 u2 db).0 ≡ bundle b
      → IsHanded requester db b target (check_permission target u1 u2 db).1
  unfolding check_permission
  check_permission-IsHanded target none u2 e1 e2 h = absurd (cc h)
  check_permission-IsHanded target (some u1) none e1 e2 h = absurd (cc h)
  check_permission-IsHanded target (some u1) (some u2) e1 e2 h =
      elim (Bool-cases (permitted u1 u2 db.permissions)) [
        | inl good ↦ rw good (with_device-IsHanded u1 u2 target _ e1 e2 good refl (rw good at h))
        | inr bad ↦ absurd (cc (rw bad at h))
      ]

  bundle_for-IsHanded :
      (target : Uuid)
      → (bundle_for requester target db).0 ≡ bundle b
      → IsHanded requester db b target (bundle_for requester target db).1
  unfolding bundle_for
  bundle_for-IsHanded target h = check_permission-IsHanded target _ _ refl refl h

  resolve-IsHanded :
      (name : Opaque) (o : Option Device)
      → find (goes_by name db.users) db.devices ≡ o
      → (resolve requester o db).0 ≡ bundle b
      → (t : Uuid) × ((d : Device) × (find (goes_by name db.users) db.devices ≡ some d)
          × (t ≡ d.device_id))
        × IsHanded requester db b t (resolve requester o db).1
  unfolding resolve
  resolve-IsHanded name none e h = absurd (cc h)
  resolve-IsHanded name (some d) e h =
      (d.device_id, (d, e, refl), bundle_for-IsHanded d.device_id h)

-- The same, for the device that the request asks for.
pub fetch_bundle-IsHanded :
    (requester : Uuid) (target : Option Uuid) (name : Option Opaque) (db : Db) (b : Bundle)
    → (fetch_bundle requester target name db).0 ≡ bundle b
    → (t : Uuid) × Asks target name db t
      × IsHanded requester db b t (fetch_bundle requester target name db).1
unfolding fetch_bundle
fetch_bundle-IsHanded requester none none db b h = absurd (cc h)
fetch_bundle-IsHanded requester (some target) none db b h =
    (target, refl, bundle_for-IsHanded requester db b target h)
fetch_bundle-IsHanded requester none (some name) db b h =
    resolve-IsHanded requester db b name (find (goes_by name db.users) db.devices) refl h
fetch_bundle-IsHanded requester (some target) (some name) db b h =
    resolve-IsHanded requester db b name (find (goes_by name db.users) db.devices) refl h
