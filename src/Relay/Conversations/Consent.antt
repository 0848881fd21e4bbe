-- ===== src/Relay/Conversations/Consent.antt =====
-- Who may talk to whom: every permission rests on a request that its recipient accepted.
use crypto_pigeon.Prelude.{
  ℕ, ◌≡◌, ◌∙◌, ◌+◌, refl, sym, ap, Bool, true, false, ◌&&◌, ◌||◌, Option, none, some, List, [], ◌∷◌,
  arith, find, any, ◌==◌, if◌then◌else◌, Bool-cases, inl, inr,
}
use crypto_pigeon.Prelude.Rows.Laws.{any-append_left, any-update_mono, find-holds, find-update_hit}
use crypto_pigeon.Relay.Db.{
  Uuid, Opaque, User, RequestStatus, pending, accepted, rejected, ConnectionRequest, Db,
}
use crypto_pigeon.Relay.Conversations.{
  seven_days, is_rejected, same_pair, reopen, request_from, request_as, request_contact, named,
  ordered, has_id, mark, commit_accept, can_accept, accept_row, accept_as, accept, can_reject,
  reject_as, reject, permitted,
}
use crypto_pigeon.Relay.Conversations.Grants.{granted, any-grant_other}

unfoldable pub is_accepted : RequestStatus → Bool
is_accepted accepted = true
is_accepted pending = false
is_accepted rejected = false

unfoldable pub agreed : Uuid → Uuid → ConnectionRequest → Bool
unfolding is_accepted
agreed a b r =
    is_accepted r.status
    && (r.requester == a && r.recipient == b || r.requester == b && r.recipient == a)

abbrev pub HasConsent : Db → Type 0
HasConsent db =
    (a b : Uuid) → permitted a b db.permissions ≡ true → any (agreed a b) db.requests ≡ true

agreed-mark :
    (a b id : Uuid) (r : ConnectionRequest)
    → agreed a b r ≡ true
    → agreed a b (if has_id id r then mark accepted r else r) ≡ true
unfolding agreed
agreed-mark a b id r h = ground arith

agreed-reject :
    (a b id user : Uuid) (r : ConnectionRequest)
    → agreed a b r ≡ true
    → agreed a b (if can_reject id user r then mark rejected r else r) ≡ true
unfolding agreed can_reject
agreed-reject a b id user r h = ground arith

agreed-reopen :
    (a b now x y : ℕ) (r : ConnectionRequest)
    → agreed a b r ≡ true
    → agreed a b (if same_pair x y r && is_rejected r.status then reopen now r else r) ≡ true
unfolding agreed same_pair is_rejected reopen
agreed-reopen a b now x y r h = ground arith

agreed_pair :
    (a b : Uuid) (r : ConnectionRequest)
    → ((ordered a b).0 == (ordered r.requester r.recipient).0
        && (ordered a b).1 == (ordered r.requester r.recipient).1)
      ≡ true
    → agreed a b (mark accepted r) ≡ true
unfolding agreed ordered
agreed_pair a b r h = ground arith

can_accept-has_id :
    (now id user : ℕ) (r : ConnectionRequest) → can_accept now id user r ≡ true → has_id id r ≡ true
unfolding can_accept
can_accept-has_id now id user r h = ground arith

request_from-agreed :
    (a b now id requester : ℕ) (u : Option User) (rs : List ConnectionRequest)
    → any (agreed a b) rs ≡ true
    → any (agreed a b) (request_from now id requester u rs) ≡ true
unfolding request_from
request_from-agreed a b now id requester none rs h = h
request_from-agreed a b now id requester (some u) rs h = ground (
  arith,
  any-update_mono (agreed a b)
      (λ (r : ConnectionRequest). same_pair requester u.user_id r && is_rejected r.status)
      (reopen now) rs (agreed-reopen a b now requester u.user_id) h,
  any-append_left (agreed a b) rs
      (record {
        request_id = id;
        requester = requester;
        recipient = u.user_id;
        status = pending;
        created_at = now;
        expires_at = now + seven_days;
      }
        ∷ [])
      h,
)

request_as-HasConsent :
    (now id : ℕ) (caller : Option Uuid) (name : Opaque) (db : Db)
    → HasConsent db
    → HasConsent (request_as now id caller name db).1
unfolding request_as
request_as-HasConsent now id none name db h = h
request_as-HasConsent now id (some u) name db h =
    λ a b p. request_from-agreed a b now id u (find (named name) db.users) db.requests (h a b p)

commit_accept-HasConsent :
    (now id user : ℕ) (r : ConnectionRequest) (db : Db)
    → HasConsent db
    → find (can_accept now id user) db.requests ≡ some r
    → HasConsent (commit_accept id r db)
unfolding commit_accept permitted
commit_accept-HasConsent now id user r db h found a b p =
    let pair = ordered r.requester r.recipient in
    elim (Bool-cases ((ordered a b).0 == pair.0 && (ordered a b).1 == pair.1)) [
      | inl same ↦
          find-update_hit (can_accept now id user) (has_id id) (agreed a b) (mark accepted)
            db.requests r found
            (can_accept-has_id now id user r
              (find-holds (can_accept now id user) db.requests r found))
            (agreed_pair a b r same)
      | inr other ↦
          any-update_mono (agreed a b) (has_id id) (mark accepted) db.requests (agreed-mark a b id)
            (h a b (sym (any-grant_other pair (ordered a b) db.permissions other) ∙ p))
    ]

accept_row-HasConsent :
    (now id user : ℕ) (found : Option ConnectionRequest) (db : Db)
    → HasConsent db
    → find (can_accept now id user) db.requests ≡ found
    → HasConsent (accept_row id found db).1
unfolding accept_row
accept_row-HasConsent now id user none db h e = h
accept_row-HasConsent now id user (some r) db h e = commit_accept-HasConsent now id user r db h e

accept_as-HasConsent :
    (now id : ℕ) (caller : Option Uuid) (db : Db)
    → HasConsent db
    → HasConsent (accept_as now id caller db).1
unfolding accept_as
accept_as-HasConsent now id none db h = h
accept_as-HasConsent now id (some user) db h = accept_row-HasConsent now id user _ db h refl

reject_as-HasConsent :
    (id : ℕ) (caller : Option Uuid) (db : Db)
    → HasConsent db
    → HasConsent (reject_as id caller db).1
unfolding reject_as
reject_as-HasConsent id none db h = h
reject_as-HasConsent id (some user) db h = λ a b p. ground (
  arith,
  h a b,
  any-update_mono (agreed a b) (can_reject id user) (mark rejected) db.requests
      (agreed-reject a b id user),
)

-- Every route of the component, as a step of the database.
pub data Step : Db → Db → Type 0 where
  requests :
      (now id : ℕ) (device : Uuid) (name : Opaque) (db : Db)
      → Step db (request_contact now id device name db).1
  accepts : (now id : ℕ) (device : Uuid) (db : Db) → Step db (accept now id device db).1
  rejects : (id : ℕ) (device : Uuid) (db : Db) → Step db (reject id device db).1

pub data Reach (start : Db) : Db → Type 0 where
  here : Reach start start
  next : {db db' : Db} → Reach start db → Step db db' → Reach start db'

Step-HasConsent : {db db' : Db} → Step db db' → HasConsent db → HasConsent db'
unfolding request_contact accept reject
Step-HasConsent (requests now id device name db) h = request_as-HasConsent now id _ name db h
Step-HasConsent (accepts now id device db) h = accept_as-HasConsent now id _ db h
Step-HasConsent (rejects id device db) h = reject_as-HasConsent id _ db h

pub Reach-HasConsent : {start db : Db} → HasConsent start → Reach start db → HasConsent db
Reach-HasConsent h here = h
Reach-HasConsent h (next r st) = Step-HasConsent st (Reach-HasConsent h r)

HasConsent-of_empty : (db : Db) → db.permissions ≡ [] → HasConsent db
unfolding permitted
HasConsent-of_empty db e a b p = cc (ap (any (granted (ordered a b))) e, p)

-- In every database that requests, acceptances and rejections lead to from one without permissions,
-- two users may talk only if one of them asked the other and that request is marked accepted.
pub permitted-agreed :
    {start db : Db}
    → start.permissions ≡ []
    → Reach start db
    → (a b : Uuid) → permitted a b db.permissions ≡ true
    → any (agreed a b) db.requests ≡ true
permitted-agreed {start} e r a b p = Reach-HasConsent (HasConsent-of_empty start e) r a b p
