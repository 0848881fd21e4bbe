-- ===== src/Relay/Conversations/Replies.antt =====
-- What each route of conversations.ts answers, and what it changes.
use crypto_pigeon.Prelude.{
  ℕ, ◌<◌, ◌≡◌, ◌≢◌, ◌∙◌, refl, Bool, true, false, ◌&&◌, Option, none, some, List, arith, find, any,
  select, update, ◌==◌, if◌then◌else◌,
}
use crypto_pigeon.Prelude.Rows.Laws.{find-holds, find-update-none, any-update_none, any-select}
use crypto_pigeon.Prelude.Rows.Sort.{IsSortedBy, sort_by-IsSortedBy, any-sort_by}
use crypto_pigeon.Relay.Db.{Uuid, Opaque, pending, accepted, ConnectionRequest, Db}
use crypto_pigeon.Relay.Conversations.{
  accept_ok, reject_ok, current_user_id, request_as, request_contact, waiting_for, list_as,
  list_requests, ordered, has_id, mark, commit_accept, can_accept, accept_row, accept_as, accept,
  can_reject, reject_as, reject, permitted,
}
use crypto_pigeon.Relay.Conversations.Grants.{any-grant}

request_as-reply_uniform :
    (now id now' id' : ℕ) (caller : Option Uuid) (name name' : Opaque) (db : Db)
    → (request_as now id caller name db).0 ≡ (request_as now' id' caller name' db).0
unfolding request_as
request_as-reply_uniform now id now' id' none name name' db = refl
request_as-reply_uniform now id now' id' (some u) name name' db = refl

-- The answer to a connection request is the same for every name that is asked for: it does not show
-- whether the name exists, is the caller's own, or was asked before.
pub request_contact-reply_uniform :
    (now id now' id' : ℕ) (device : Uuid) (name name' : Opaque) (db : Db)
    → (request_contact now id device name db).0 ≡ (request_contact now' id' device name' db).0
unfolding request_contact
request_contact-reply_uniform now id now' id' device name name' db =
    request_as-reply_uniform now id now' id' (current_user_id device db) name name' db

abbrev pub is_ordered_pair : Uuid → Uuid → ConnectionRequest → Bool
is_ordered_pair a b r =
    (ordered a b).0 == (ordered r.requester r.recipient).0
    && (ordered a b).1 == (ordered r.requester r.recipient).1

-- What an acceptance by `device` has established, and its effect on every pair of users.
pub record IsAccepted (now id : ℕ) (device : Uuid) (before after : Db) : Type 0 where
  pub row : ConnectionRequest
  pub id_matches : row.request_id ≡ id
  pub caller : current_user_id device before ≡ some row.recipient
  pub was_pending : row.status ≡ pending
  pub in_time : now < row.expires_at
  pub permits :
      (a b : Uuid)
      → permitted a b after.permissions
        ≡ (if is_ordered_pair a b row then true else permitted a b before.permissions)

can_accept-facts :
    (now id user : ℕ) (r : ConnectionRequest)
    → can_accept now id user r ≡ true
    → (r.request_id ≡ id) × (user ≡ r.recipient) × (r.status ≡ pending) × (now < r.expires_at)
unfolding can_accept
can_accept-facts now id user r h = ground arith

accept_row-IsAccepted :
    (now id : ℕ) (device user : Uuid) (found : Option ConnectionRequest) (db : Db)
    → current_user_id device db ≡ some user
    → find (can_accept now id user) db.requests ≡ found
    → (accept_row id found db).0 ≡ accept_ok
    → IsAccepted now id device db (accept_row id found db).1
unfolding accept_row commit_accept permitted
accept_row-IsAccepted now id device user none db c e ok = absurd (cc ok)
accept_row-IsAccepted now id device user (some r) db c e ok =
    let facts =
      can_accept-facts now id user r (find-holds (can_accept now id user) db.requests r e) in
    let pair = ordered r.requester r.recipient in
    record {
      row = r;
      id_matches = facts.0;
      caller = rw (← facts.1) c;
      was_pending = facts.2;
      in_time = facts.3;
      permits = λ a b. any-grant pair (ordered a b) db.permissions;
    }

accept_as-IsAccepted :
    (now id : ℕ) (device : Uuid) (caller : Option Uuid) (db : Db)
    → current_user_id device db ≡ caller
    → (accept_as now id caller db).0 ≡ accept_ok
    → IsAccepted now id device db (accept_as now id caller db).1
unfolding accept_as
accept_as-IsAccepted now id device none db c ok = absurd (cc ok)
accept_as-IsAccepted now id device (some user) db c ok =
    accept_row-IsAccepted now id device user _ db c refl ok

-- An acceptance succeeds only for the recipient of a pending request with this id that has not
-- expired; it then permits that pair, and changes the permission of no other pair.
pub accept-IsAccepted :
    (now id : ℕ) (device : Uuid) (db : Db)
    → (accept now id device db).0 ≡ accept_ok
    → IsAccepted now id device db (accept now id device db).1
unfolding accept
accept-IsAccepted now id device db ok = accept_as-IsAccepted now id device _ db refl ok

-- No row of these requests can still be decided under `id`.
abbrev IsDecided : ℕ → List ConnectionRequest → Type 0
IsDecided id rs =
    (now user : ℕ)
    → (find (can_accept now id user) rs ≡ none) × (any (can_reject id user) rs ≡ false)

accepted-IsDecided :
    (id : ℕ) (rs : List ConnectionRequest) → IsDecided id (update (has_id id) (mark accepted) rs)
unfolding can_accept can_reject
accepted-IsDecided id rs now user = (
  find-update-none (can_accept now id user) (has_id id) (mark accepted) rs
      (λ (r : ConnectionRequest). ground arith),
  any-update_none (can_reject id user) (has_id id) (mark accepted) rs
      (λ (r : ConnectionRequest). ground arith),
)

accept_as-decided :
    (now id : ℕ) (caller : Option Uuid) (db : Db)
    → IsDecided id db.requests
    → (accept_as now id caller db).0 ≢ accept_ok
unfolding accept_as accept_row
accept_as-decided now id none db d = cc
accept_as-decided now id (some user) db d = rw (d now user).0 (cc)

reject_as-decided :
    (id : ℕ) (caller : Option Uuid) (db : Db)
    → IsDecided id db.requests
    → (reject_as id caller db).0 ≢ reject_ok
unfolding reject_as
reject_as-decided id none db d = cc
reject_as-decided id (some user) db d = ground (arith, d 0 user)

accept_as-IsDecided :
    (now id : ℕ) (caller : Option Uuid) (db : Db)
    → (accept_as now id caller db).0 ≡ accept_ok
    → IsDecided id (accept_as now id caller db).1.requests
unfolding accept_as commit_accept
accept_as-IsDecided now id none db ok = absurd (cc ok)
accept_as-IsDecided now id (some user) db ok = by_row (find (can_accept now id user) db.requests) ok
  where
    by_row :
        (found : Option ConnectionRequest)
        → (accept_row id found db).0 ≡ accept_ok
        → IsDecided id (accept_row id found db).1.requests
    by_row none h = absurd (cc h)
    by_row (some r) h = accepted-IsDecided id db.requests

-- Once a request has been accepted, neither a second acceptance nor a rejection of it succeeds, from
-- whatever device and at whatever time.
pub accept_decides :
    (now now' id : ℕ) (device device' : Uuid) (db : Db)
    → (accept now id device db).0 ≡ accept_ok
    → ((accept now' id device' (accept now id device db).1).0 ≢ accept_ok)
      × ((reject id device' (accept now id device db).1).0 ≢ reject_ok)
unfolding accept reject
accept_decides now now' id device device' db ok =
    let d = accept_as-IsDecided now id (current_user_id device db) db ok in
    (
      accept_as-decided now' id _ (accept_as now id (current_user_id device db) db).1 d,
      reject_as-decided id _ (accept_as now id (current_user_id device db) db).1 d,
    )

list_as_lem :
    (now : ℕ) (user : Uuid) (db : Db)
    → IsSortedBy (λ (r : ConnectionRequest). r.created_at) (list_as now (some user) db)
      × ((p : ConnectionRequest → Bool)
          → any p (list_as now (some user) db)
            ≡ any (λ r. waiting_for now user r && p r) db.requests)
unfolding list_as
list_as_lem now user db = (
  sort_by-IsSortedBy _ (select (waiting_for now user) db.requests),
  λ p.
      any-sort_by _ p (select (waiting_for now user) db.requests)
      ∙ any-select p (waiting_for now user) db.requests,
)

-- The list shown to an active user is in order of creation and holds a request with a property
-- exactly if one with it is pending, unexpired and addressed to that user.
pub list_requests_lem :
    (now : ℕ) (device user : Uuid) (db : Db)
    → current_user_id device db ≡ some user
    → IsSortedBy (λ (r : ConnectionRequest). r.created_at) (list_requests now device db)
      × ((p : ConnectionRequest → Bool)
          → any p (list_requests now device db)
            ≡ any (λ r. waiting_for now user r && p r) db.requests)
unfolding list_requests
list_requests_lem now device user db e = rw e (list_as_lem now user db)
