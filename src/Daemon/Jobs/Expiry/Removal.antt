-- ===== src/Daemon/Jobs/Expiry/Removal.antt =====
-- What a tick removes, and what it leaves.
use crypto_pigeon.Prelude.{
  ℕ, ◌≡◌, refl, ap, sym, ◌∙◌, Bool, true, false, not, ◌&&◌, ◌||◌, Option, none, some, List, [], ◌∷◌,
  arith, any, select, delete, contains, ◌==◌, ==_refl, if◌then◌else◌, Bool-cases, inl, inr,
}
use crypto_pigeon.Relay.Db.{Opaque}
use crypto_pigeon.Daemon.Local.{Message}
use crypto_pigeon.Daemon.Jobs.Expiry.{
  Attachment, Disk, is_expired, remove_file, unlink, unlink_all, expire_one, expire_all, tick,
}

-- Whether a message of `ms` has the id of `m`.
abbrev pub names : List Message → Message → Bool
names ms m = any (λ (e : Message). m.message_id == e.message_id) ms

delete-delete :
    (id : Opaque) (ms rows : List Message)
    → delete (names ms) (delete (λ (m : Message). m.message_id == id) rows)
      ≡ delete (λ (m : Message). m.message_id == id || names ms m) rows
delete-delete id ms [] = refl
delete-delete id ms (r ∷ rows) = ground (arith, delete-delete id ms rows)

delete_none : (rows : List Message) → delete (names []) rows ≡ rows
delete_none [] = refl
delete_none (r ∷ rows) = ground (arith, delete_none rows)

expire_all-messages :
    (removable : Opaque → Bool) (cascades : Bool) (ms : List Message) (d : Disk)
    → (expire_all removable cascades ms d).messages ≡ delete (names ms) d.messages
unfolding expire_all expire_one
expire_all-messages removable cascades [] d = sym (delete_none d.messages)
expire_all-messages removable cascades (m ∷ ms) d =
    expire_all-messages removable cascades ms (expire_one removable cascades m.message_id d)
    ∙ delete-delete m.message_id ms d.messages

abbrev implies : Bool → Bool → Bool
implies a b = not a || b

names_mono :
    (p : Message → Bool) (x : Message) (ms rows : List Message)
    → any (λ r. not (implies (p r) (names ms r))) rows ≡ false
    → any (λ r. not (implies (p r) (names (x ∷ ms) r))) rows ≡ false
names_mono p x ms [] h = refl
names_mono p x ms (r ∷ rows) h = ground (arith, names_mono p x ms rows)

names_step :
    (p : Message → Bool) (r : Message) (ms rows : List Message) (b : Bool)
    → p r ≡ b
    → any (λ x. not (implies (p x) (names ms x))) rows ≡ false
    → any (λ x. not (implies (p x) (names (if b then r ∷ ms else ms) x))) (r ∷ rows) ≡ false
names_step p r ms rows true e h = rw (e, ==_refl r.message_id) (names_mono p r ms rows h)
names_step p r ms rows false e h = rw e h

names-select :
    (p : Message → Bool) (rows : List Message)
    → any (λ r. not (implies (p r) (names (select p rows) r))) rows ≡ false
names-select p [] = refl
names-select p (r ∷ rows) = names_step p r (select p rows) rows (p r) refl (names-select p rows)

none_left :
    (p : Message → Bool) (ms rows : List Message)
    → any (λ r. not (implies (p r) (names ms r))) rows ≡ false
    → any p (delete (names ms) rows) ≡ false
none_left p ms [] h = refl
none_left p ms (r ∷ rows) h = ground (arith, none_left p ms rows)

-- Whether an attachment has its file at `path`.
abbrev pub is_at : Opaque → Option Opaque → Bool
is_at path none = false
is_at path (some at) = path == at

abbrev pub holds : Opaque → Attachment → Bool
holds path a = is_at path a.encrypted_local_path

-- Whether an attachment of a message of `ms` has its file at `path`.
abbrev pub owned : List Message → Opaque → Attachment → Bool
owned ms path a = holds path a && any (λ (m : Message). a.message_id == m.message_id) ms

contains-remove_file :
    (path at : Opaque) (files : List Opaque)
    → contains path (remove_file at files) ≡ (contains path files && not (path == at))
unfolding remove_file
contains-remove_file path at [] = refl
contains-remove_file path at (f ∷ files) = ground (arith, contains-remove_file path at files)

contains-unlink :
    (removable : Opaque → Bool) (path : Opaque) (o : Option Opaque) (files : List Opaque)
    → contains path (unlink removable o files)
      ≡ (contains path files && not (removable path && is_at path o))
unfolding unlink
contains-unlink removable path none files = ground arith
contains-unlink removable path (some at) files = elim (Bool-cases (path == at)) [
  | inl e ↦
      let same : path ≡ at = ground arith in
      ground (arith, contains-remove_file path at files, ap removable same)
  | inr e ↦ ground (arith, contains-remove_file path at files)
]

contains-unlink_all :
    (removable : Opaque → Bool) (path : Opaque) (as' : List Attachment) (files : List Opaque)
    → contains path (unlink_all removable as' files)
      ≡ (contains path files && not (removable path && any (holds path) as'))
unfolding unlink_all
contains-unlink_all removable path [] files = ground arith
contains-unlink_all removable path (a ∷ as') files = ground (
  arith,
  contains-unlink_all removable path as' (unlink removable a.encrypted_local_path files),
  contains-unlink removable path a.encrypted_local_path files,
)

holds-own :
    (id path : Opaque) (rows : List Attachment)
    → any (holds path) (select (λ (a : Attachment). a.message_id == id) rows)
      ≡ any (λ (a : Attachment). holds path a && a.message_id == id) rows
holds-own id path [] = refl
holds-own id path (a ∷ rows) = ground (arith, holds-own id path rows)

owned_cons :
    (m : Message) (ms : List Message) (path : Opaque) (rows : List Attachment)
    → any (owned (m ∷ ms) path) rows ≡ (
        any (λ (a : Attachment). holds path a && a.message_id == m.message_id) rows
        || any (owned ms path) rows)
owned_cons m ms path [] = refl
owned_cons m ms path (a ∷ rows) = ground (arith, owned_cons m ms path rows)

owned_cons_delete :
    (m : Message) (ms : List Message) (path : Opaque) (rows : List Attachment)
    → any (owned (m ∷ ms) path) rows ≡ (
        any (λ (a : Attachment). holds path a && a.message_id == m.message_id) rows
        || any (owned ms path) (delete (λ (a : Attachment). a.message_id == m.message_id) rows))
owned_cons_delete m ms path [] = refl
owned_cons_delete m ms path (a ∷ rows) = ground (arith, owned_cons_delete m ms path rows)

owned_nil : (path : Opaque) (rows : List Attachment) → any (owned [] path) rows ≡ false
owned_nil path [] = refl
owned_nil path (a ∷ rows) = ground (arith, owned_nil path rows)

expire_all-files :
    (removable : Opaque → Bool) (cascades : Bool) (ms : List Message) (path : Opaque) (d : Disk)
    → contains path (expire_all removable cascades ms d).files
      ≡ (contains path d.files && not (removable path && any (owned ms path) d.attachments))
unfolding expire_all expire_one
expire_all-files removable cascades [] path d = ground (arith, owned_nil path d.attachments)
expire_all-files removable true (m ∷ ms) path d = ground (
  arith,
  expire_all-files removable true ms path (expire_one removable true m.message_id d),
  contains-unlink_all removable path (select (λ a. a.message_id == m.message_id) d.attachments)
      d.files,
  holds-own m.message_id path d.attachments,
  owned_cons_delete m ms path d.attachments,
)
expire_all-files removable false (m ∷ ms) path d = ground (
  arith,
  expire_all-files removable false ms path (expire_one removable false m.message_id d),
  contains-unlink_all removable path (select (λ a. a.message_id == m.message_id) d.attachments)
      d.files,
  holds-own m.message_id path d.attachments,
  owned_cons m ms path d.attachments,
)

-- What has become of the messages that were due at `now`, and of their files.
pub record IsTidy (removable : Opaque → Bool) (now : ℕ) (d d' : Disk) : Type 0 where
  pub gone : any (is_expired now) d'.messages ≡ false
  pub kept : d'.messages ≡ delete (names (select (is_expired now) d.messages)) d.messages
  pub files :
      (path : Opaque)
      → contains path d'.files ≡ (
          contains path d.files
          && not (
              removable path
              && any (owned (select (is_expired now) d.messages) path) d.attachments))

-- After a tick that runs in an open vault no message is left that was due, every message with another
-- id is left, and exactly those files are gone that belong to a message that was due and can be
-- unlinked, whether or not the database cascades.
pub tick-IsTidy :
    (removable : Opaque → Bool) (cascades : Bool) (now : ℕ) (d : Disk)
    → IsTidy removable now d (tick removable cascades false true now d)
unfolding tick
tick-IsTidy removable cascades now d =
    let due = select (is_expired now) d.messages in
    record {
      gone =
          ap (any (is_expired now)) (expire_all-messages removable cascades due d)
          ∙ none_left (is_expired now) due d.messages (names-select (is_expired now) d.messages);
      kept = expire_all-messages removable cascades due d;
      files = λ path. expire_all-files removable cascades due path d;
    }
