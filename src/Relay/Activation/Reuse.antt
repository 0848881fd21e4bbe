-- ===== src/Relay/Activation/Reuse.antt =====
-- A request for access serves for one account.
use crypto_pigeon.Prelude.{
  ℕ, ◌≡◌, ◌≢◌, refl, ap, Bool, true, false, Option, none, some, List, [], ◌∷◌, find, update, ◌==◌,
  Bool-cases, inl, inr,
}
use crypto_pigeon.Relay.Db.{
  Uuid, Opaque, AccessStatus, pending, approved, rejected, activated, AccessRequest, Db,
}
use crypto_pigeon.Relay.Activation.{Payload, created, with_status, has_id, Draw, activate}
use crypto_pigeon.Relay.Activation.Accounts.{activate-IsActivation}

is_activated : AccessStatus → Bool
is_activated activated = true
is_activated pending = false
is_activated approved = false
is_activated rejected = false

is_spent : Option AccessRequest → Bool
unfolding is_activated
is_spent none = true
is_spent (some r) = is_activated r.status

find-activated :
    (id : Uuid) (rs : List AccessRequest)
    → is_spent (find (has_id id) (update (has_id id) (with_status activated) rs)) ≡ true
unfolding has_id with_status is_spent
find-activated id [] = refl
find-activated id (q ∷ rs) = elim (Bool-cases (q.request_id == id)) [
  | inl own ↦ rw (own, own) refl
  | inr other ↦ rw (other, other) (find-activated id rs)
]

spent-found :
    (id id' : Uuid) (rs rs' : List AccessRequest) (r : AccessRequest)
    → id' ≡ id
    → rs' ≡ update (has_id id) (with_status activated) rs
    → find (has_id id') rs' ≡ some r
    → r.status ≢ approved
unfolding is_spent
spent-found id id' rs rs' r same e found s =
    let is_true : is_spent (find (has_id id') rs') ≡ true = rw (same, e) (find-activated id rs) in
    let is_false : is_spent (some r) ≡ false = ap is_activated s in cc (is_true, is_false, found)

-- A request that has made an account makes no second one, whatever is sent for it next.
pub activate_once :
    (hmac : Opaque → Opaque) (uid : Uuid → ℕ → Opaque) (now now' : ℕ) (draw draw' : Draw)
    (p p' : Payload) (db : Db) (token token' : Opaque) (user user' device device' : Uuid)
    (public_uid public_uid' : Opaque)
    → p'.request_id ≡ p.request_id
    → (activate hmac uid now draw p db).0 ≡ created token user device public_uid
    → (activate hmac uid now' draw' p' (activate hmac uid now draw p db).1).0
      ≢ created token' user' device' public_uid'
activate_once hmac uid now now' draw draw' p p' db token token' user user' device device' public_uid
      public_uid' same h h' =
    let first = activate-IsActivation hmac uid now draw p db token user device public_uid h in
    let second =
      activate-IsActivation hmac uid now' draw' p' _ token' user' device' public_uid' h' in
    spent-found p.request_id p'.request_id _ _ second.request same first.account.spent second.found
      second.approval
