-- ===== src/Daemon/Jobs/Expiry.antt =====
-- apps/local-daemon/src/disappearing.ts: deleting messages whose time has come, with their files.
-- Whether a file can be unlinked, and whether SQLite cascades, are arguments.
pub mod Removal
use crypto_pigeon.Prelude.{
  ℕ, ◌≡◌, refl, ap, sym, ◌∙◌, Bool, true, false, not, ◌&&◌, ◌||◌, Option, none, some, List, [], ◌∷◌,
  arith, any, select, delete, contains, ◌==◌, ==_refl, leb, if◌then◌else◌, Bool-cases, inl, inr,
}
use crypto_pigeon.Relay.Db.{Opaque}
use crypto_pigeon.Daemon.Local.{Message}

-- A row of `attachments`.
pub record Attachment : Type 0 where
  pub attachment_id : Opaque
  pub message_id : Opaque
  pub encrypted_local_path : Option Opaque

-- The tables, and the files of the vault by their path.
pub record Disk : Type 0 where
  pub messages : List Message
  pub attachments : List Attachment
  pub files : List Opaque

unfoldable pub is_due : ℕ → Option ℕ → Bool
is_due now none = false
is_due now (some at) = leb at now

unfoldable pub is_expired : ℕ → Message → Bool
unfolding is_due
is_expired now m = is_due now m.disappear_at

unfoldable pub remove_file : Opaque → List Opaque → List Opaque
remove_file path files = delete (λ f. f == path) files

unfoldable pub unlink : (Opaque → Bool) → Option Opaque → List Opaque → List Opaque
unfolding remove_file
unlink removable none files = files
unlink removable (some path) files = if removable path then remove_file path files else files

unfoldable pub unlink_all : (Opaque → Bool) → List Attachment → List Opaque → List Opaque
unfolding unlink
unlink_all removable [] files = files
unlink_all removable (a ∷ as') files =
    unlink_all removable as' (unlink removable a.encrypted_local_path files)

-- The body of the loop for one message.
unfoldable pub expire_one : (Opaque → Bool) → Bool → Opaque → Disk → Disk
unfolding unlink_all
expire_one removable cascades id d =
    let own = λ (a : Attachment). a.message_id == id in
    record {
      messages = delete (λ m. m.message_id == id) d.messages;
      attachments = if cascades then delete own d.attachments else d.attachments;
      files = unlink_all removable (select own d.attachments) d.files;
    }

unfoldable pub expire_all : (Opaque → Bool) → Bool → List Message → Disk → Disk
unfolding expire_one
expire_all removable cascades [] d = d
expire_all removable cascades (m ∷ ms) d =
    expire_all removable cascades ms (expire_one removable cascades m.message_id d)

-- One tick; `running` is whether the previous one has not ended.
unfoldable pub tick : (Opaque → Bool) → Bool → Bool → Bool → ℕ → Disk → Disk
unfolding expire_all
tick removable cascades running unlocked now d =
    if running
    then d
    else if not unlocked
    then d
    else expire_all removable cascades (select (is_expired now) d.messages) d
