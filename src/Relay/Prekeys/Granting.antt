-- ===== src/Relay/Prekeys/Granting.antt =====
-- apps/relay-server/src/prekeys.ts: whom a bundle of prekeys is given to, and which keys it uses up.
use crypto_pigeon.Prelude.{
  ◌≤◌, ◌≡◌, refl, ap, sym, subst, Bool, true, false, not, ◌&&◌, Option, none, some, List, [], ◌∷◌,
  ◌++◌, arith, find, any, All, Any, ◌==◌, leb, Bool-cases, inl, inr,
}
use crypto_pigeon.Prelude.Rows.Laws.{All-mono}
use crypto_pigeon.Relay.Db.{Uuid, Opaque, SignedPrekey, OneTimePrekey, PqPrekey, Db}
use crypto_pigeon.Relay.Conversations.{permitted}
use crypto_pigeon.Relay.Queue.{user_of}
use crypto_pigeon.Relay.Auth.{is_active_device}
use crypto_pigeon.Relay.Prekeys.{available, pq_available, is_one_time}
use crypto_pigeon.Relay.Prekeys.Handout.{
  consume_first, spend, pq_spend, later, latest, Bundle, bundle, is_last_resort, consumed_db,
  fetch_bundle,
}
use crypto_pigeon.Relay.Prekeys.Bundles.{Asks, fetch_bundle-IsHanded}

-- Nothing passed `p`, and the table is as it was; or the row was the first that passed `p`, and it is
-- the only one that has changed, to `f r`.
abbrev pub IsTaken {ℓ} : {A : Type ℓ} → (A → Bool) → (A → A) → Option A → List A → List A → Type ℓ
IsTaken p f none xs ys = (any p xs ≡ false) × (ys ≡ xs)
IsTaken {A = A} p f (some r) xs ys =
    (front : List A) × (back : List A) × (xs ≡ front ++ r ∷ back)
    × (any p front ≡ false)
    × (p r ≡ true)
    × (ys ≡ front ++ f r ∷ back)

push_front {ℓ} :
    {A : Type ℓ} (p : A → Bool) (f : A → A) (x : A) (o : Option A) (xs ys : List A)
    → p x ≡ false
    → IsTaken p f o xs ys
    → IsTaken p f o (x ∷ xs) (x ∷ ys)
push_front p f x none xs ys n (free, same) = (rw n free, ap (λ zs. x ∷ zs) same)
push_front p f x (some r) xs ys n (front, back, before, free, hit, after) =
    (x ∷ front, back, ap (λ zs. x ∷ zs) before, rw n free, hit, ap (λ zs. x ∷ zs) after)

consume_first-IsTaken {ℓ} :
    {A : Type ℓ} (p : A → Bool) (f : A → A) (xs : List A)
    → IsTaken p f (find p xs) xs (consume_first p f xs)
unfolding consume_first
consume_first-IsTaken p f [] = (refl, refl)
consume_first-IsTaken p f (x ∷ xs) = elim (Bool-cases (p x)) [
  | inl y ↦ rw y ([], xs, refl, refl, y, refl)
  | inr n ↦
      rw n (push_front p f x (find p xs) xs (consume_first p f xs) n (consume_first-IsTaken p f xs))
]

-- The row is one of the device, and no row of the device is of a later upload.
pub record IsLatest (device : Uuid) (rs : List SignedPrekey) (s : SignedPrekey) : Type 0 where
  pub owned : s.device_id ≡ device
  pub member : Any (λ r. r ≡ s) rs
  pub last : All (λ r. r.device_id ≡ device → r.uploaded_at ≤ s.uploaded_at) rs

abbrev Newest : Uuid → List SignedPrekey → Option SignedPrekey → Type 0
Newest device rs none = All (λ r. (r.device_id == device) ≡ false) rs
Newest device rs (some s) = IsLatest device rs s

module _ (device : Uuid) (r : SignedPrekey) (rs : List SignedPrekey) where
  push_other :
      (o : Option SignedPrekey)
      → (r.device_id == device) ≡ false
      → Newest device rs o
      → Newest device (r ∷ rs) o
  push_other none n h = (n, h)
  push_other (some s) n h = record {
    owned = h.owned;
    member = inr h.member;
    last = ((λ e. absurd (ground arith)), h.last);
  }

  push_own :
      (o : Option SignedPrekey)
      → (r.device_id == device) ≡ true
      → Newest device rs o
      → Newest device (r ∷ rs) (later r o)
  unfolding later
  push_own none y h = record {
    owned = ground arith;
    member = inl refl;
    last = (
      (λ e. omega arith),
      All-mono (λ x. (x.device_id == device) ≡ false)
          (λ x. x.device_id ≡ device → x.uploaded_at ≤ r.uploaded_at) rs
          (λ x n e. absurd (ground arith)) h,
    );
  }
  push_own (some s) y h = elim (Bool-cases (leb r.uploaded_at s.uploaded_at)) [
    | inl older ↦
        rw older
          (record { owned = h.owned; member = inr h.member; last = ((λ e. ground arith), h.last) })
    | inr newer ↦ rw newer (record {
      owned = ground arith;
      member = inl refl;
      last = (
        (λ e. omega arith),
        All-mono (λ x. x.device_id ≡ device → x.uploaded_at ≤ s.uploaded_at)
            (λ x. x.device_id ≡ device → x.uploaded_at ≤ r.uploaded_at) rs
            (λ x le e. let k : x.uploaded_at ≤ s.uploaded_at = le e in ground arith) h.last,
      );
    })
  ]

latest-Newest : (device : Uuid) (rs : List SignedPrekey) → Newest device rs (latest device rs)
unfolding latest
latest-Newest device [] = tt
latest-Newest device (r ∷ rs) = elim (Bool-cases (r.device_id == device)) [
  | inl y ↦ rw y (push_own device r rs (latest device rs) y (latest-Newest device rs))
  | inr n ↦ rw n (push_other device r rs (latest device rs) n (latest-Newest device rs))
]

-- What is so of the bundle that `requester` was given for the device `t`.
pub record IsGranted (requester : Uuid) (target : Option Uuid) (name : Option Opaque) (before : Db)
    (b : Bundle) (after : Db) : Type 0 where
  pub t : Uuid
  pub asked : Asks target name before t
  pub sender : Uuid
  pub recipient : Uuid
  pub sender_user : user_of requester before.devices ≡ some sender
  pub recipient_user : user_of t before.devices ≡ some recipient
  pub approved : permitted sender recipient before.permissions ≡ true
  pub active : find (is_active_device t) before.devices ≡ some b.device
  pub newest : IsLatest t before.signed_prekeys b.signed
  pub fallback : find (is_last_resort t) before.pq_prekeys ≡ some b.last_resort
  pub keys : List OneTimePrekey
  pub key_taken :
      IsTaken
        (λ (r : OneTimePrekey). r.device_id == t && not r.consumed)
        (λ r. record r { consumed = true })
        b.one_time
        before.one_time_prekeys
        keys
  pub pq_keys : List PqPrekey
  pub pq_key_taken :
      IsTaken
        (λ (r : PqPrekey). r.device_id == t && not r.consumed && is_one_time r.prekey_type)
        (λ r. record r { consumed = true })
        b.pq_one_time
        before.pq_prekeys
        pq_keys
  pub tables : after ≡ record before { one_time_prekeys = keys; pq_prekeys = pq_keys }

-- A bundle is only given for the device that is asked for, by its id or by the name of its user, and
-- to a device whose user may write to the user of that device. The device is unrevoked and is the
-- bundle's device; the bundle has its latest signed prekey, its first last-resort key, and the first
-- unconsumed key of either stock, or none where that stock has none. The keys of the two stocks are
-- marked as consumed, and no other row of any table changes.
pub fetch_bundle-IsGranted :
    (requester : Uuid) (target : Option Uuid) (name : Option Opaque) (db : Db) (b : Bundle)
    → (fetch_bundle requester target name db).0 ≡ bundle b
    → IsGranted requester target name db b (fetch_bundle requester target name db).1
unfolding available pq_available consumed_db
fetch_bundle-IsGranted requester target name db b e =
    let (t, asked, h) = fetch_bundle-IsHanded requester target name db b e in
    record {
      t = t;
      asked = asked;
      sender = h.sender;
      recipient = h.recipient;
      sender_user = h.sender_user;
      recipient_user = h.recipient_user;
      approved = h.approved;
      active = h.active;
      newest = subst (Newest t db.signed_prekeys) h.newest (latest-Newest t db.signed_prekeys);
      fallback = h.fallback;
      keys = consume_first (available t) spend db.one_time_prekeys;
      key_taken =
          subst
            (λ o.
              IsTaken (available t) spend o db.one_time_prekeys
                (consume_first (available t) spend db.one_time_prekeys))
            (sym h.first_key) (consume_first-IsTaken (available t) spend db.one_time_prekeys);
      pq_keys = consume_first (pq_available t) pq_spend db.pq_prekeys;
      pq_key_taken =
          subst
            (λ o.
              IsTaken (pq_available t) pq_spend o db.pq_prekeys
                (consume_first (pq_available t) pq_spend db.pq_prekeys))
            (sym h.first_pq_key) (consume_first-IsTaken (pq_available t) pq_spend db.pq_prekeys);
      tables = h.consumption;
    }
