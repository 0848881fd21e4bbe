-- ===== src/Relay/Conversations.antt =====
-- apps/relay-server/src/conversations.ts: connection requests, and the permissions that the
-- recipient's acceptance grants. Request bodies are parsed; the clock and new ids are arguments.
pub mod Grants
pub mod Consent
pub mod Replies
use crypto_pigeon.Prelude.{
  ℕ, ◌+◌, Bool, true, false, not, ◌&&◌, ◌||◌, Option, none, some, List, [], ◌∷◌, ◌++◌, find, any,
  select, update, ◌==◌, ltb, if◌then◌else◌,
}
use crypto_pigeon.Prelude.Rows.Sort.{sort_by}
use crypto_pigeon.Relay.Db.{
  Uuid, Opaque, User, Device, RequestStatus, pending, accepted, rejected, ConnectionRequest,
  Permission, Db,
}

pub data Reply : Type 0 where
  received device_not_active not_found accept_ok reject_ok : Reply

abbrev pub seven_days : ℕ
seven_days = 604800000

-- The test of the join `users u ON u.user_id = d.user_id ... u.revoked_at IS NULL`.
unfoldable pub user_active : Uuid → List User → Bool
user_active user users = any (λ u. u.user_id == user && not u.revoked) users

abbrev pub owner_of : Option Device → Option Uuid
owner_of none = none
owner_of (some d) = some d.user_id

unfoldable pub current_user_id : Uuid → Db → Option Uuid
unfolding user_active
current_user_id device db = owner_of (
    find (λ d. d.device_id == device && not d.revoked && user_active d.user_id db.users) db.devices)

unfoldable pub is_pending : RequestStatus → Bool
is_pending pending = true
is_pending accepted = false
is_pending rejected = false

unfoldable pub is_rejected : RequestStatus → Bool
is_rejected rejected = true
is_rejected pending = false
is_rejected accepted = false

unfoldable pub same_pair : Uuid → Uuid → ConnectionRequest → Bool
same_pair requester recipient r = r.requester == requester && r.recipient == recipient

-- `ON CONFLICT ... DO UPDATE SET status = 'pending' ... WHERE status = 'rejected'`
unfoldable pub reopen : ℕ → ConnectionRequest → ConnectionRequest
reopen now r = record r { status = pending; expires_at = now + seven_days; created_at = now }

unfoldable pub insert_request :
    ℕ → Uuid → Uuid → Uuid → List ConnectionRequest → List ConnectionRequest
unfolding same_pair is_rejected reopen
insert_request now id requester recipient requests =
    if any (same_pair requester recipient) requests
    then update (λ r. same_pair requester recipient r && is_rejected r.status) (reopen now) requests
    else requests
      ++ record {
        request_id = id;
        requester = requester;
        recipient = recipient;
        status = pending;
        created_at = now;
        expires_at = now + seven_days;
      }
        ∷ []

unfoldable pub named : Opaque → User → Bool
named name u = (u.username == name || u.public_uid == name) && not u.revoked

-- What the request of an active requester does to the table.
unfoldable pub request_from :
    ℕ → Uuid → Uuid → Option User → List ConnectionRequest → List ConnectionRequest
unfolding insert_request
request_from now id requester none requests = requests
request_from now id requester (some u) requests =
    if u.user_id == requester then requests else insert_request now id requester u.user_id requests

-- The handler after the look-up of the caller's user.
unfoldable pub request_as : ℕ → Uuid → Option Uuid → Opaque → Db → Reply × Db
request_as now id none name db = (device_not_active, db)
request_as now id (some requester) name db = (
  received,
  record db { requests = request_from now id requester (find (named name) db.users) db.requests },
)

-- POST /api/conversations/requests
unfoldable pub request_contact : ℕ → Uuid → Uuid → Opaque → Db → Reply × Db
unfolding request_as
request_contact now id device name db = request_as now id (current_user_id device db) name db

unfoldable pub waiting_for : ℕ → Uuid → ConnectionRequest → Bool
unfolding is_pending
waiting_for now user r = r.recipient == user && is_pending r.status && ltb now r.expires_at

unfoldable pub list_as : ℕ → Option Uuid → Db → List ConnectionRequest
list_as now none db = []
list_as now (some user) db = sort_by (λ r. r.created_at) (select (waiting_for now user) db.requests)

-- GET /api/conversations/requests
unfoldable pub list_requests : ℕ → Uuid → Db → List ConnectionRequest
unfolding list_as
list_requests now device db = list_as now (current_user_id device db) db

-- `a < b ? [a, b] : [b, a]`
unfoldable pub ordered : Uuid → Uuid → Uuid × Uuid
ordered a b = if ltb a b then (a, b) else (b, a)

unfoldable pub is_pair : Uuid × Uuid → Permission → Bool
is_pair pair p = p.user_one == pair.0 && p.user_two == pair.1

unfoldable pub grant : Uuid × Uuid → List Permission → List Permission
unfolding is_pair
grant pair permissions =
    if any (is_pair pair) permissions
    then update (is_pair pair) (λ p. record p { revoked = false }) permissions
    else permissions ++ record { user_one = pair.0; user_two = pair.1; revoked = false } ∷ []

unfoldable pub has_id : Uuid → ConnectionRequest → Bool
has_id id r = r.request_id == id

abbrev pub mark : RequestStatus → ConnectionRequest → ConnectionRequest
mark s r = record r { status = s }

unfoldable pub commit_accept : Uuid → ConnectionRequest → Db → Db
commit_accept id r db = record db {
  requests = update (has_id id) (mark accepted) db.requests;
  permissions = grant (ordered r.requester r.recipient) db.permissions;
}

unfoldable pub can_accept : ℕ → Uuid → Uuid → ConnectionRequest → Bool
unfolding has_id waiting_for
can_accept now id user r = has_id id r && waiting_for now user r

unfoldable pub accept_row : Uuid → Option ConnectionRequest → Db → Reply × Db
accept_row id none db = (not_found, db)
accept_row id (some r) db = (accept_ok, commit_accept id r db)

unfoldable pub accept_as : ℕ → Uuid → Option Uuid → Db → Reply × Db
unfolding accept_row
accept_as now id none db = (device_not_active, db)
accept_as now id (some user) db = accept_row id (find (can_accept now id user) db.requests) db

-- POST /api/conversations/requests/:requestId/accept
unfoldable pub accept : ℕ → Uuid → Uuid → Db → Reply × Db
unfolding accept_as
accept now id device db = accept_as now id (current_user_id device db) db

unfoldable pub can_reject : Uuid → Uuid → ConnectionRequest → Bool
unfolding has_id is_pending
can_reject id user r = has_id id r && r.recipient == user && is_pending r.status

unfoldable pub reject_as : Uuid → Option Uuid → Db → Reply × Db
reject_as id none db = (not_found, db)
reject_as id (some user) db =
    if any (can_reject id user) db.requests
    then (
      reject_ok,
      record db { requests = update (can_reject id user) (mark rejected) db.requests },
    )
    else (not_found, db)

-- POST /api/conversations/requests/:requestId/reject; a device with no user matches no row.
unfoldable pub reject : Uuid → Uuid → Db → Reply × Db
unfolding reject_as
reject id device db = reject_as id (current_user_id device db) db

-- `SELECT 1 FROM conversation_permissions WHERE ... AND revoked_at IS NULL`
unfoldable pub permitted : Uuid → Uuid → List Permission → Bool
unfolding ordered is_pair
permitted a b permissions = any (λ p. is_pair (ordered a b) p && not p.revoked) permissions
