-- ===== src/Daemon/Keys.antt =====
-- apps/local-daemon/src/signal-store.ts: sessions, pinned identities and prekeys in the vault, and
-- signal-adapter.ts: setting up a session. Keys, records and names are opaque numbers; a key and its
-- serialization are one number.
pub mod Trust
pub mod Records
use crypto_pigeon.Prelude.{
  ℕ, Bool, true, false, not, ◌&&◌, Option, none, some, List, [], ◌∷◌, ◌++◌, find, any, update,
  delete, ◌==◌, if◌then◌else◌,
}
use crypto_pigeon.Relay.Db.{Opaque}

-- A row of `signal_prekeys`, `signal_signed_prekeys` or `signal_kyber_prekeys`.
pub record Prekey : Type 0 where
  pub prekey_id : ℕ
  pub bytes : Opaque

-- A row of `signal_sessions`.
pub record Ratchet : Type 0 where
  pub contact_id : Opaque
  pub ratchet_state : Opaque

-- A row of `contacts`.
pub record Contact : Type 0 where
  pub contact_id : Opaque
  pub username : Opaque
  pub identity_public_key : Opaque
  pub verified : Bool
  pub identity_changed : Bool

-- The tables of libsignal's stores.
pub record Keys : Type 0 where
  pub contacts : List Contact
  pub sessions : List Ratchet
  pub prekeys : List Prekey
  pub signed_prekeys : List Prekey
  pub kyber_prekeys : List Prekey

-- A `ProtocolAddress`: `contact` is its text, `user` its name.
pub record Address : Type 0 where
  pub contact : Opaque
  pub user : Opaque

unfoldable pub has_contact : Opaque → Contact → Bool
has_contact id c = c.contact_id == id

unfoldable pub new_contact : Address → Opaque → Contact
new_contact name key = record {
  contact_id = name.contact;
  username = name.user;
  identity_public_key = key;
  verified = false;
  identity_changed = false;
}

pub data IdentityChange : Type 0 where
  new_or_unchanged replaced_existing : IdentityChange

-- The UPDATE of `saveIdentity`.
unfoldable pub set_identity : Opaque → Bool → Contact → Contact
set_identity key changed c = record c {
  identity_public_key = key;
  verified = if changed then false else c.verified;
  identity_changed = if changed then true else c.identity_changed;
}

unfoldable pub change_of : Bool → IdentityChange
change_of true = replaced_existing
change_of false = new_or_unchanged

unfoldable pub save_over : Address → Opaque → Option Contact → Keys → IdentityChange × Keys
unfolding has_contact new_contact set_identity change_of
save_over name key none ks =
    (new_or_unchanged, record ks { contacts = ks.contacts ++ new_contact name key ∷ [] })
save_over name key (some existing) ks =
    let changed = not (existing.identity_public_key == key) in
    (
      change_of changed,
      record ks {
        contacts = update (has_contact name.contact) (set_identity key changed) ks.contacts;
      },
    )

unfoldable pub save_identity : Address → Opaque → Keys → IdentityChange × Keys
unfolding save_over
save_identity name key ks = save_over name key (find (has_contact name.contact) ks.contacts) ks

unfoldable pub key_of : Option Contact → Option Opaque
key_of none = none
key_of (some c) = some c.identity_public_key

unfoldable pub get_identity : Address → Keys → Option Opaque
unfolding key_of has_contact
get_identity name ks = key_of (find (has_contact name.contact) ks.contacts)

unfoldable pub trusts : Option Opaque → Opaque → Bool
trusts none key = true
trusts (some existing) key = existing == key

unfoldable pub is_trusted_identity : Address → Opaque → Keys → Bool
unfolding trusts get_identity
is_trusted_identity name key ks = trusts (get_identity name ks) key

unfoldable pub is_ratchet : Opaque → Ratchet → Bool
is_ratchet id r = r.contact_id == id

-- `INSERT ... ON CONFLICT(contact_id) DO UPDATE`
unfoldable pub save_session : Address → Opaque → Keys → Keys
unfolding is_ratchet
save_session name state ks = record ks {
  sessions =
      if any (is_ratchet name.contact) ks.sessions
      then update (is_ratchet name.contact) (λ r. record r { ratchet_state = state }) ks.sessions
      else ks.sessions ++ record { contact_id = name.contact; ratchet_state = state } ∷ [];
}

unfoldable pub state_of : Option Ratchet → Option Opaque
state_of none = none
state_of (some r) = some r.ratchet_state

unfoldable pub get_session : Address → Keys → Option Opaque
unfolding state_of is_ratchet
get_session name ks = state_of (find (is_ratchet name.contact) ks.sessions)

unfoldable pub keep : Option Opaque → List Opaque → List Opaque
keep none states = states
keep (some state) states = state ∷ states

unfoldable pub get_existing_sessions : List Address → Keys → List Opaque
unfolding keep get_session
get_existing_sessions [] ks = []
get_existing_sessions (name ∷ names) ks =
    keep (get_session name ks) (get_existing_sessions names ks)

unfoldable pub is_prekey : ℕ → Prekey → Bool
is_prekey id p = p.prekey_id == id

-- `INSERT ... ON CONFLICT(prekey_id) DO UPDATE`
unfoldable pub put_prekey : ℕ → Opaque → List Prekey → List Prekey
unfolding is_prekey
put_prekey id bytes rows =
    if any (is_prekey id) rows
    then update (is_prekey id) (λ p. record p { bytes = bytes }) rows
    else rows ++ record { prekey_id = id; bytes = bytes } ∷ []

-- `INSERT`; `none` where the id is taken, which the primary key forbids.
unfoldable pub add_prekey : Prekey → List Prekey → Option (List Prekey)
unfolding is_prekey
add_prekey p rows = if any (is_prekey p.prekey_id) rows then none else some (rows ++ p ∷ [])

unfoldable pub bytes_of : Option Prekey → Option Opaque
bytes_of none = none
bytes_of (some p) = some p.bytes

-- `none` for the error `prekey_not_found` and its like.
unfoldable pub read_prekey : ℕ → List Prekey → Option Opaque
unfolding bytes_of is_prekey
read_prekey id rows = bytes_of (find (is_prekey id) rows)

unfoldable pub save_prekey : ℕ → Opaque → Keys → Keys
unfolding put_prekey
save_prekey id bytes ks = record ks { prekeys = put_prekey id bytes ks.prekeys }

unfoldable pub get_prekey : ℕ → Keys → Option Opaque
unfolding read_prekey
get_prekey id ks = read_prekey id ks.prekeys

unfoldable pub remove_prekey : ℕ → Keys → Keys
unfolding is_prekey
remove_prekey id ks = record ks { prekeys = delete (is_prekey id) ks.prekeys }

unfoldable pub save_signed_prekey : ℕ → Opaque → Keys → Keys
unfolding put_prekey
save_signed_prekey id bytes ks = record ks {
  signed_prekeys = put_prekey id bytes ks.signed_prekeys;
}

unfoldable pub get_signed_prekey : ℕ → Keys → Option Opaque
unfolding read_prekey
get_signed_prekey id ks = read_prekey id ks.signed_prekeys

unfoldable pub save_kyber_prekey : ℕ → Opaque → Keys → Keys
unfolding put_prekey
save_kyber_prekey id bytes ks = record ks { kyber_prekeys = put_prekey id bytes ks.kyber_prekeys }

unfoldable pub get_kyber_prekey : ℕ → Keys → Option Opaque
unfolding read_prekey
get_kyber_prekey id ks = read_prekey id ks.kyber_prekeys

-- `markKyberPreKeyUsed` changes nothing.
unfoldable pub mark_kyber_prekey_used : ℕ → Keys → Keys
mark_kyber_prekey_used id ks = ks
