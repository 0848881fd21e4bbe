-- ===== src/Relay/Activation/Attempts.antt =====
-- Guessing a code: five attempts at most are answered as invalid.
use crypto_pigeon.Prelude.{
  ℕ, ◌+◌, ◌<◌, ◌≤◌, ◌≡◌, refl, ap, subst, ◌∙◌, Bool, true, false, ◌&&◌, Option, none, some, List,
  [], ◌∷◌, text_eq, arith, find, any, update, ◌==◌, leb, if◌then◌else◌, Bool-cases, inl, inr,
}
use crypto_pigeon.Prelude.Rows.Laws.{any_of_find}
use crypto_pigeon.Relay.Db.{
  Uuid, Opaque, Device, AccessStatus, pending, approved, rejected, activated, AccessRequest, Db,
}
use crypto_pigeon.Relay.Auth.{open_session}
use crypto_pigeon.Relay.Activation.{
  Payload, activation_code_invalid, Reply, failed, resumed, created, with_status, count_attempt,
  has_id, in_requests, Draw, register_account, committed, code_matches, attempt, is_expired,
  try_code, resume, by_status, for_request, activate,
}
use crypto_pigeon.Relay.Activation.Accounts.{IsRegistered, register_account-IsRegistered}

-- The attempts that a request has used up.
unfoldable pub attempts_of : Option AccessRequest → ℕ
attempts_of none = 0
attempts_of (some r) = r.attempt_count

unfoldable pub attempts : Uuid → Db → ℕ
unfolding attempts_of
attempts id db = attempts_of (find (has_id id) db.access_requests)

-- 401 ACTIVATION_CODE_INVALID. A wrong code for a request that is activated already gets another
-- answer, 409, and is not counted by the relay.
unfoldable pub is_invalid_code : Reply → Bool
is_invalid_code (failed activation_code_invalid) = true
is_invalid_code (failed _) = false
is_invalid_code (resumed t u d) = false
is_invalid_code (created t u d v) = false

-- One activation: its time, its random values and its body.
pub record Step : Type 0 where
  pub now : ℕ
  pub draw : Draw
  pub payload : Payload

-- The answers to a sequence of activations that the code for one request is invalid.
unfoldable pub invalid_codes : (Opaque → Opaque) → (Uuid → ℕ → Opaque) → Uuid → List Step → Db → ℕ
invalid_codes hmac uid id [] db = 0
invalid_codes hmac uid id (s ∷ ss) db =
    let (reply, db') = activate hmac uid s.now s.draw s.payload db in
    (if s.payload.request_id == id && is_invalid_code reply then 1 else 0)
    + invalid_codes hmac uid id ss db'

attempts-count :
    (id rid : Uuid) (rs : List AccessRequest)
    → attempts_of (find (has_id id) (update (has_id rid) count_attempt rs))
      ≡ (if rid == id && any (has_id id) rs then 1 else 0) + attempts_of (find (has_id id) rs)
unfolding attempts_of has_id count_attempt
attempts-count id rid [] = ground arith
attempts-count id rid (r ∷ rs) = ground (arith, attempts-count id rid rs)

attempts-status :
    (id rid : Uuid) (s : AccessStatus) (rs : List AccessRequest)
    → attempts_of (find (has_id id) (update (has_id rid) (with_status s) rs))
      ≡ attempts_of (find (has_id id) rs)
unfolding attempts_of has_id with_status
attempts-status id rid s [] = refl
attempts-status id rid s (r ∷ rs) = ground (arith, attempts-status id rid s rs)

-- What an activation does to the attempts of a request: a wrong guess at its code costs one.
abbrev Counts : Bool → Uuid → Db → Reply × Db → Type 0
Counts hits id db (reply, db') =
    ((if hits && is_invalid_code reply then 1 else 0) + attempts id db ≤ attempts id db')
    × (attempts id db' ≤ 5)

module _ (hmac : Opaque → Opaque) (uid : Uuid → ℕ → Opaque) (now : ℕ) (draw : Draw) (p : Payload)
    (id : Uuid) where
  attempts-counted :
      (r : AccessRequest) (db : Db)
      → find (has_id p.request_id) db.access_requests ≡ some r
      → r.attempt_count < 5
      → attempts id db ≤ 5
      → ((if p.request_id == id then 1 else 0) + attempts id db
          ≤ attempts id (in_requests count_attempt p.request_id db))
        × (attempts id (in_requests count_attempt p.request_id db) ≤ 5)
  unfolding attempts attempts_of in_requests
  attempts-counted r db e few le = elim (Bool-cases (p.request_id == id)) [
    | inr other ↦ ground (arith, attempts-count id p.request_id db.access_requests)
    | inl own ↦
        let same : p.request_id ≡ id = ground arith in
        let here : attempts_of (find (has_id id) db.access_requests) ≡ r.attempt_count =
          ap attempts_of (subst (λ i. find (has_id i) db.access_requests ≡ some r) same e) in
        let there : any (has_id id) db.access_requests ≡ true =
          any_of_find (has_id id) db.access_requests r
            (subst (λ i. find (has_id i) db.access_requests ≡ some r) same e) in
        ground (arith, attempts-count id p.request_id db.access_requests)
  ]

  registered-attempts :
      (username u : Opaque) (db db' : Db)
      → IsRegistered hmac uid now draw p username u db db'
      → attempts id db' ≡ attempts id db
  unfolding attempts
  registered-attempts username u db db' account =
      ap (λ rows. attempts_of (find (has_id id) rows)) account.spent
      ∙ attempts-status id p.request_id activated db.access_requests

  committed-Counts :
      (username : Opaque) (o : Option (Opaque × Db)) (db counted : Db)
      → register_account hmac uid now draw p username counted ≡ o
      → attempts id db ≤ attempts id counted
      → attempts id counted ≤ 5
      → Counts (p.request_id == id) id db (committed hmac uid now draw p o db)
  unfolding committed is_invalid_code attempts
  committed-Counts username none db counted e le bound = (ground arith, ground arith)
  committed-Counts username (some (u, d)) db counted e le bound =
      let account = register_account-IsRegistered hmac uid now draw p username u counted d e in
      let same = registered-attempts username u counted d account in (ground arith, ground arith)

  attempt-Counts :
      (r : AccessRequest) (db : Db)
      → find (has_id p.request_id) db.access_requests ≡ some r
      → r.attempt_count < 5
      → attempts id db ≤ 5
      → Counts (p.request_id == id) id db (attempt hmac uid now draw p r db)
  unfolding attempt is_invalid_code
  attempt-Counts r db e few le =
      let (grows, bound) = attempts-counted r db e few le in
      elim (Bool-cases (code_matches hmac uid now draw p r)) [
        | inl right ↦ rw right (committed-Counts r.username _ db _ refl (ground arith) bound)
        | inr wrong ↦ rw wrong (ground arith, bound)
      ]

  try_code-Counts :
      (r : AccessRequest) (db : Db)
      → find (has_id p.request_id) db.access_requests ≡ some r
      → attempts id db ≤ 5
      → Counts (p.request_id == id) id db (try_code hmac uid now draw p r db)
  unfolding try_code is_invalid_code
  try_code-Counts r db e le =
      elim (Bool-cases (is_expired hmac uid now draw p r.activation_expires_at)) [
        | inl late ↦ rw late (ground arith, le)
        | inr early ↦ elim (Bool-cases (leb 5 r.attempt_count)) [
          | inl many ↦ rw (early, many) (ground arith, le)
          | inr few ↦ rw (early, few) (attempt-Counts r db e (ground arith) le)
        ]
      ]

  resume-Counts :
      (matches : Bool) (o : Option Device) (db : Db)
      → attempts id db ≤ 5
      → Counts (p.request_id == id) id db (resume hmac uid now draw p matches o db)
  unfolding resume open_session is_invalid_code attempts
  resume-Counts matches none db le = (ground arith, le)
  resume-Counts matches (some d) db le =
      elim (Bool-cases (
        matches
        && (d.identity_public_key == p.identity_key && text_eq d.auth_public_key p.auth_key))) [
          | inl same ↦ rw same (ground arith, le)
          | inr other ↦ rw other (ground arith, le)
        ]

  by_status-Counts :
      (s : AccessStatus) (r : AccessRequest) (db : Db)
      → find (has_id p.request_id) db.access_requests ≡ some r
      → attempts id db ≤ 5
      → Counts (p.request_id == id) id db (by_status hmac uid now draw p s r db)
  unfolding by_status is_invalid_code
  by_status-Counts pending r db e le = (ground arith, le)
  by_status-Counts rejected r db e le = (ground arith, le)
  by_status-Counts activated r db e le = resume-Counts _ _ db le
  by_status-Counts approved r db e le = try_code-Counts r db e le

  for_request-Counts :
      (o : Option AccessRequest) (db : Db)
      → find (has_id p.request_id) db.access_requests ≡ o
      → attempts id db ≤ 5
      → Counts (p.request_id == id) id db (for_request hmac uid now draw p o db)
  unfolding for_request is_invalid_code
  for_request-Counts none db e le = (ground arith, le)
  for_request-Counts (some r) db e le = by_status-Counts r.status r db e le

  activate-Counts :
      (db : Db)
      → attempts id db ≤ 5
      → Counts (p.request_id == id) id db (activate hmac uid now draw p db)
  unfolding activate
  activate-Counts db le =
      for_request-Counts (find (has_id p.request_id) db.access_requests) db refl le

-- However many activations are sent, for whatever requests and accounts, the relay answers at most
-- five times that the code for one request is invalid, less the attempts that the request had used
-- up before.
pub invalid_codes-limit :
    (hmac : Opaque → Opaque) (uid : Uuid → ℕ → Opaque) (id : Uuid) (steps : List Step) (db : Db)
    → attempts id db ≤ 5
    → invalid_codes hmac uid id steps db + attempts id db ≤ 5
unfolding invalid_codes
invalid_codes-limit hmac uid id [] db le = ground arith
invalid_codes-limit hmac uid id (s ∷ ss) db le =
    let (grows, bound) = activate-Counts hmac uid s.now s.draw s.payload id db le in
    let rest =
      invalid_codes-limit hmac uid id ss (activate hmac uid s.now s.draw s.payload db).1 bound in
    omega arith
