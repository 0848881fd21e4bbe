-- ===== src/Relay/Prekeys/Consumption.antt =====
-- One-time prekeys are handed out once.
use crypto_pigeon.Prelude.{
  inl, inr, Bool-cases, ℕ, ◌-◌, ◌≡◌, refl, ap, sym, subst, Bool, true, false, not, ◌&&◌, Option,
  none, some, List, [], ◌∷◌, ◌++◌, arith, find, any, select, count, All,
}
use crypto_pigeon.Prelude.Rows.Laws.{All-mono, any-append, any_of_found, find-holds}
use crypto_pigeon.Relay.Db.{Uuid, Opaque, OneTimePrekey, Db}
use crypto_pigeon.Relay.Prekeys.{is_key, available}
use crypto_pigeon.Relay.Prekeys.Handout.{
  consume_first, spend, Reply, failed, bundle, consumed_db, fetch_bundle,
}
use crypto_pigeon.Relay.Prekeys.Bundles.{fetch_bundle-failed, fetch_bundle-IsHanded}
use crypto_pigeon.Relay.Prekeys.Uniqueness.{IsUnique, consume-IsUnique}

-- A request for a bundle: who asks, and for which device id or name.
pub record Ask : Type 0 where
  pub requester : Uuid
  pub target : Option Uuid
  pub name : Option Opaque

abbrev pub given : Reply → Option OneTimePrekey
given (failed f) = none
given (bundle b) = b.one_time

abbrev pub listed : Option OneTimePrekey → List OneTimePrekey
listed none = []
listed (some r) = r ∷ []

-- The one-time prekeys of the bundles that the requests are answered with, one after the other.
unfoldable pub hand_outs : List Ask → Db → List OneTimePrekey
hand_outs [] db = []
hand_outs (a ∷ asks) db =
    let (reply, db') = fetch_bundle a.requester a.target a.name db in
    listed (given reply) ++ hand_outs asks db'

unspent : Uuid → ℕ → OneTimePrekey → Bool
unfolding is_key
unspent device id r = is_key device id r && not r.consumed

unspent-consume :
    (t device : Uuid) (id : ℕ) (rs : List OneTimePrekey)
    → any (unspent device id) rs ≡ false
    → any (unspent device id) (consume_first (available t) spend rs) ≡ false
unfolding consume_first unspent
unspent-consume t device id [] h = h
unspent-consume t device id (r ∷ rs) h = ground (arith, unspent-consume t device id rs)

no_key-no_unspent :
    (device : Uuid) (id : ℕ) (rs : List OneTimePrekey)
    → any (is_key device id) rs ≡ false
    → any (unspent device id) rs ≡ false
unfolding unspent
no_key-no_unspent device id [] h = refl
no_key-no_unspent device id (r ∷ rs) h = ground (arith, no_key-no_unspent device id rs)

head-spent :
    (device : Uuid) (x : OneTimePrekey) (rs : List OneTimePrekey)
    → available device x ≡ true
    → any (is_key x.device_id x.signal_prekey_id) rs ≡ false
    → any (unspent device x.signal_prekey_id) (spend x ∷ rs) ≡ false
unfolding unspent available is_key
head-spent device x rs a new = ground (arith, no_key-no_unspent device x.signal_prekey_id rs)

tail-spent :
    (device : Uuid) (x : OneTimePrekey) (rs : List OneTimePrekey) (id : ℕ)
    → available device x ≡ false
    → any (unspent device id) rs ≡ false
    → any (unspent device id) (x ∷ rs) ≡ false
unfolding unspent available is_key
tail-spent device x rs id a h = ground arith

-- The key that is handed out is spent.
found-spent :
    (device : Uuid) (rs : List OneTimePrekey) (r : OneTimePrekey)
    → IsUnique rs
    → find (available device) rs ≡ some r
    → any (unspent device r.signal_prekey_id) (consume_first (available device) spend rs) ≡ false
unfolding consume_first
found-spent device [] r h e = absurd (cc e)
found-spent device (x ∷ rs) r (new, h) e = elim (Bool-cases (available device x)) [
  | inl a ↦ ground (arith, head-spent device x rs a new)
  | inr a ↦ ground (
    arith,
    tail-spent device x (consume_first (available device) spend rs) r.signal_prekey_id a,
    found-spent device rs r h,
  )
]

-- What a request does to the table of one-time prekeys.
abbrev Handing : List OneTimePrekey → Reply → List OneTimePrekey → Type 0
Handing rs (failed f) rs' = rs' ≡ rs
Handing rs (bundle b) rs' =
    (t : Uuid) × (b.one_time ≡ find (available t) rs) × (rs' ≡ consume_first (available t) spend rs)

fetch_bundle-Handing :
    (a : Ask) (db : Db) (reply : Reply)
    → (fetch_bundle a.requester a.target a.name db).0 ≡ reply
    → Handing db.one_time_prekeys reply
        (fetch_bundle a.requester a.target a.name db).1.one_time_prekeys
unfolding consumed_db
fetch_bundle-Handing a db (failed f) e =
    ap (λ (d : Db). d.one_time_prekeys) (fetch_bundle-failed a.requester a.target a.name db f e)
fetch_bundle-Handing a db (bundle b) e =
    let (t, asked, h) = fetch_bundle-IsHanded a.requester a.target a.name db b e in
    (t, h.first_key, ap (λ (d : Db). d.one_time_prekeys) h.consumption)

-- No key that is spent is handed out.
found-other :
    (t device : Uuid) (id : ℕ) (rs : List OneTimePrekey) (o : Option OneTimePrekey)
    → o ≡ find (available t) rs
    → any (unspent device id) rs ≡ false
    → any (is_key device id) (listed o) ≡ false
unfolding unspent available
found-other t device id rs none e h = refl
found-other t device id rs (some r) e h = elim (Bool-cases (is_key device id r)) [
  | inr other ↦ rw other refl
  | inl same ↦
      let a = find-holds (available t) rs r (sym e) in
      let there = any_of_found (available t) (unspent device id) rs r (sym e) (ground arith) in
      absurd (ground arith)
]

Handing-spent :
    (rs : List OneTimePrekey) (reply : Reply) (rs' : List OneTimePrekey) (device : Uuid) (id : ℕ)
    → Handing rs reply rs'
    → any (unspent device id) rs ≡ false
    → (any (is_key device id) (listed (given reply)) ≡ false)
      × (any (unspent device id) rs' ≡ false)
Handing-spent rs (failed f) rs' device id e h =
    (refl, subst (λ xs. any (unspent device id) xs ≡ false) (sym e) h)
Handing-spent rs (bundle b) rs' device id (t, e, next) h = (
  found-other t device id rs b.one_time e h,
  subst (λ xs. any (unspent device id) xs ≡ false) (sym next) (unspent-consume t device id rs h),
)

hand_outs-spent :
    (asks : List Ask) (db : Db) (device : Uuid) (id : ℕ)
    → any (unspent device id) db.one_time_prekeys ≡ false
    → any (is_key device id) (hand_outs asks db) ≡ false
unfolding hand_outs
hand_outs-spent [] db device id h = refl
hand_outs-spent (a ∷ asks) db device id h =
    let out = fetch_bundle a.requester a.target a.name db in
    let (other, spent) =
      Handing-spent db.one_time_prekeys out.0 out.1.one_time_prekeys device id
        (fetch_bundle-Handing a db out.0 refl) h in
    ground (
      arith,
      any-append (is_key device id) (listed (given out.0)) (hand_outs asks out.1),
      hand_outs-spent asks out.1 device id spent,
    )

owner-spent :
    (t : Uuid) (rs : List OneTimePrekey) (o : Option OneTimePrekey)
    → o ≡ find (available t) rs
    → IsUnique rs
    → All
        (λ r.
          any (unspent r.device_id r.signal_prekey_id) (consume_first (available t) spend rs)
          ≡ false)
        (listed o)
unfolding available
owner-spent t rs none e h = tt
owner-spent t rs (some r) e h =
    let a = find-holds (available t) rs r (sym e) in
    let owned : t ≡ r.device_id = ground arith in
    (
      subst (λ d. any (unspent d r.signal_prekey_id) (consume_first (available t) spend rs) ≡ false)
          owned (found-spent t rs r h (sym e)),
      tt,
    )

-- The keys that a request hands out are spent then, and the table stays unique.
Handing-IsUnique :
    (rs : List OneTimePrekey) (reply : Reply) (rs' : List OneTimePrekey)
    → Handing rs reply rs'
    → IsUnique rs
    → All (λ r. any (unspent r.device_id r.signal_prekey_id) rs' ≡ false) (listed (given reply))
      × IsUnique rs'
Handing-IsUnique rs (failed f) rs' e h = (tt, subst IsUnique (sym e) h)
Handing-IsUnique rs (bundle b) rs' (t, e, next) h = (
  subst
      (λ xs. All (λ r. any (unspent r.device_id r.signal_prekey_id) xs ≡ false) (listed b.one_time))
      (sym next) (owner-spent t rs b.one_time e h),
  subst IsUnique (sym next) (consume-IsUnique t rs h),
)

listed-IsUnique :
    (o : Option OneTimePrekey) (later : List OneTimePrekey)
    → All (λ r. any (is_key r.device_id r.signal_prekey_id) later ≡ false) (listed o)
    → IsUnique later
    → IsUnique (listed o ++ later)
listed-IsUnique none later new h = h
listed-IsUnique (some r) later (new, _) h = (new, h)

-- Whatever bundles are requested one after the other, by whomever and for whichever devices, with no
-- upload between them, no one-time prekey is handed out twice, where the table keeps its uniqueness
-- constraint.
pub hand_outs-IsUnique :
    (asks : List Ask) (db : Db) → IsUnique db.one_time_prekeys → IsUnique (hand_outs asks db)
unfolding hand_outs
hand_outs-IsUnique [] db h = tt
hand_outs-IsUnique (a ∷ asks) db h =
    let out = fetch_bundle a.requester a.target a.name db in
    let (spent, unique) =
      Handing-IsUnique db.one_time_prekeys out.0 out.1.one_time_prekeys
        (fetch_bundle-Handing a db out.0 refl) h in
    listed-IsUnique (given out.0) (hand_outs asks out.1)
      (All-mono (λ r. any (unspent r.device_id r.signal_prekey_id) out.1.one_time_prekeys ≡ false)
        (λ r. any (is_key r.device_id r.signal_prekey_id) (hand_outs asks out.1) ≡ false)
        (listed (given out.0)) (λ r k. hand_outs-spent asks out.1 r.device_id r.signal_prekey_id k)
        spent)
      (hand_outs-IsUnique asks out.1 unique)

-- Fetching lowers the stock of a device by one, where it is not empty already.
pub stock-consume :
    (device : Uuid) (rs : List OneTimePrekey)
    → count (select (available device) (consume_first (available device) spend rs))
      ≡ count (select (available device) rs) - 1
unfolding consume_first available
stock-consume device [] = refl
stock-consume device (r ∷ rs) = ground (arith, stock-consume device rs)
