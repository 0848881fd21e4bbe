-- ===== src/Daemon/Invites.antt =====
-- apps/local-daemon/src/serverless-contacts.ts, importServerlessContact: an invitation is checked
-- against what is pinned of its device and its contact, and then imported. The invitation is parsed;
-- checking a prekey's signature and establishing a session are arguments. A contact's public id and
-- safety number, and the text of a pinned invitation, which nothing here reads, are left out.
pub mod Pins
use crypto_pigeon.Prelude.{
  ℕ, Bool, true, false, not, ◌&&◌, ◌||◌, Option, none, some, List, [], ◌∷◌, ◌++◌, find, any, update,
  delete, ◌==◌, is_some, if◌then◌else◌,
}
use crypto_pigeon.Relay.Db.{Opaque}
use crypto_pigeon.Daemon.Local.{Remote, Conversation}
use crypto_pigeon.Daemon.Keys.{Contact, Keys, Address, has_contact, is_ratchet}
use crypto_pigeon.Daemon.Onion.{Peer, is_device, is_changed}

pub record Invite : Type 0 where
  pub username : Opaque
  pub onion : Opaque
  pub user_id : Opaque
  pub device_id : Opaque
  pub signal_device_id : ℕ
  pub device_auth_key : Opaque
  pub identity_key : Opaque
  pub prekeys : List Opaque

-- The tables that an import reads and writes; `device_id` is the daemon's own.
pub record Book : Type 0 where
  pub device_id : Opaque
  pub keys : Keys
  pub remotes : List Remote
  pub onions : List Peer
  pub conversations : List Conversation

pub data Fault : Type 0 where
  self_invite invalid_signature pinned_invite_changed pinned_device_changed identity_changed
        session_failed pinned_identity_changed :
      Fault

pub data Reply : Type 0 where
  failed : (fault : Fault) → Reply
  imported : (conversation : Opaque) → Reply

-- What the import calls, and the id that it may draw: the signature of a prekey by an identity, the
-- text of an address, and establishing a session, which saves the identity and the session.
pub record World : Type 0 where
  pub verifies : Opaque → Opaque → Bool
  pub address_of : Opaque → ℕ → Opaque
  pub establish : Address → Invite → Keys → Option Keys
  pub fresh : Opaque

unfoldable pub all_signed : (Opaque → Bool) → List Opaque → Bool
all_signed p [] = true
all_signed p (k ∷ ks) = p k && all_signed p ks

-- A pin of the same device or contact that says something else.
unfoldable pub breaks_pin : Invite → Opaque → Peer → Bool
breaks_pin i contact p =
    (p.device_id == i.device_id || p.contact_id == contact)
    && not (p.contact_id == contact && p.auth_key == i.device_auth_key && p.onion == i.onion)

unfoldable pub breaks_remote : Invite → Opaque → Remote → Bool
breaks_remote i contact r =
    (r.device_id == i.device_id || r.contact_id == contact)
    && not (
        r.contact_id == contact
        && r.device_id == i.device_id
        && r.user_id == i.user_id
        && r.signal_device_id == i.signal_device_id)

unfoldable pub is_suspect : Opaque → Contact → Bool
is_suspect contact c = c.contact_id == contact && c.identity_changed

unfoldable pub has_identity : Opaque → Option Contact → Bool
has_identity key none = false
has_identity key (some c) = c.identity_public_key == key

-- INSERT OR IGNORE INTO remote_contacts
unfoldable pub insert_remote : Remote → List Remote → List Remote
insert_remote r rs = if any (λ q. q.contact_id == r.contact_id) rs then rs else rs ++ r ∷ []

-- INSERT OR REPLACE INTO peer_onions
unfoldable pub replace_pin : Peer → List Peer → List Peer
unfolding is_device
replace_pin p ps = delete (is_device p.device_id) ps ++ p ∷ []

unfoldable pub confirm : Opaque → Contact → Contact
confirm username c = record c { username = username; verified = true; identity_changed = false }

unfoldable pub open_conversation :
    Opaque → Opaque → Option Conversation → List Conversation → Opaque × List Conversation
open_conversation fresh contact none cs = (
  fresh,
  cs ++ record { conversation_id = fresh; contact_id = contact; disappearing_seconds = none } ∷ [],
)
open_conversation fresh contact (some c) cs = (c.conversation_id, cs)

-- The writes of the transaction, once the session stands.
unfoldable pub record_contact : World → Invite → Opaque → Keys → Book → Reply × Book
unfolding insert_remote replace_pin confirm open_conversation has_contact
record_contact w i contact keys b =
    let (conversation, cs) =
      open_conversation w.fresh contact (find (λ c. c.contact_id == contact) b.conversations)
        b.conversations in
    (
      imported conversation,
      record b {
        keys = record keys {
          contacts = update (has_contact contact) (confirm i.username) keys.contacts;
        };
        remotes =
            insert_remote
              (record {
                contact_id = contact;
                user_id = i.user_id;
                device_id = i.device_id;
                signal_device_id = i.signal_device_id;
              })
              b.remotes;
        onions =
            replace_pin
              (record {
                device_id = i.device_id;
                contact_id = contact;
                onion = i.onion;
                auth_key = i.device_auth_key;
              })
              b.onions;
        conversations = cs;
      },
    )

unfoldable pub with_session : World → Invite → Opaque → Option Keys → Book → Reply × Book
unfolding record_contact
with_session w i contact none b = (failed session_failed, b)
with_session w i contact (some keys) b = record_contact w i contact keys b

-- The transaction; a failure rolls it back.
unfoldable pub transact : World → Invite → Opaque → Book → Reply × Book
unfolding with_session has_identity has_contact is_ratchet
transact w i contact b =
    if not (any (is_ratchet contact) b.keys.sessions)
    then with_session w i contact
        (w.establish (record { contact = contact; user = i.user_id }) i b.keys) b
    else if has_identity i.identity_key (find (has_contact contact) b.keys.contacts)
    then record_contact w i contact b.keys b
    else (failed pinned_identity_changed, b)

unfoldable pub check_pins : World → Invite → Opaque → Book → Reply × Book
unfolding transact breaks_pin breaks_remote is_suspect
check_pins w i contact b =
    if any (breaks_pin i contact) b.onions
    then (failed pinned_invite_changed, b)
    else if any (breaks_remote i contact) b.remotes
    then (failed pinned_device_changed, b)
    else if any (is_suspect contact) b.keys.contacts
    then (failed identity_changed, b)
    else transact w i contact b

-- importServerlessContact
unfoldable pub import_contact : World → Invite → Book → Reply × Book
unfolding check_pins all_signed
import_contact w i b =
    if i.device_id == b.device_id
    then (failed self_invite, b)
    else if not (all_signed (w.verifies i.identity_key) i.prekeys)
    then (failed invalid_signature, b)
    else check_pins w i (w.address_of i.user_id i.signal_device_id) b
