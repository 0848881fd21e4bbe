-- ===== src/Daemon/Files.antt =====
-- apps/local-daemon/src/attachments.ts: attachments are encrypted in chunks, uploaded, downloaded by
-- their manifest, and kept encrypted in the vault. AES-256-GCM and SHA-256 are arguments. The requests
-- are the relay's handlers, for a device that is logged in. A digest and a key are opaque.
pub mod Sending
pub mod Fetching
pub mod Slices
pub mod Uploading
pub mod Downloading
pub mod Delivery
pub mod Names
use crypto_pigeon.Prelude.{
  ℕ, ◌+◌, ◌-◌, ◌*◌, ◌/◌, ◌%◌, min, max, Bool, true, not, ◌&&◌, ◌||◌, Option, none, some, List, [],
  ◌∷◌, ◌++◌, Text, text_eq, length, take, slice, find, delete, count, ◌==◌, leb, if◌then◌else◌,
}
use crypto_pigeon.Relay.Db.{Uuid, Opaque}

-- A cipher: `seal` takes the key, the nonce, the authenticated data and the plaintext, and gives the
-- ciphertext and the tag; `unseal` takes both back.
pub record Gcm : Type 0 where
  pub seal : Opaque → Text → Text → Text → Text × Text
  pub unseal : Opaque → Text → Text → Text → Text → Option Text

abbrev pub chunk_size : ℕ
chunk_size = 65536

-- `writeUInt32BE`
unfoldable pub be32 : ℕ → Text
be32 n = n / 16777216 % 256 ∷ n / 65536 % 256 ∷ n / 256 % 256 ∷ n % 256 ∷ []

-- The id has 16 bytes.
unfoldable pub make_aad : Text → ℕ → ℕ → Text
unfolding be32
make_aad id index total = id ++ (be32 index ++ (be32 total ++ be32 1))

-- `Math.ceil(totalSize / CHUNK_SIZE) || 1`
unfoldable pub chunk_count : ℕ → ℕ
chunk_count size = let n = (size + 65535) / chunk_size in if n == 0 then 1 else n

-- `plaintext.slice(start, end)` for the chunk `i` of size `w`.
abbrev pub chunk_at : ℕ → ℕ → Text → Text
chunk_at w i p = slice (i * w) (min (i * w + w) (length p)) p

-- Control characters are removed.
unfoldable pub is_control : ℕ → Bool
is_control c = leb c 31 || c == 127

-- Backslash and slash, and : * ? " < > |
unfoldable pub is_special : ℕ → Bool
is_special c =
    c == 92 || c == 47 || c == 58 || c == 42 || c == 63 || c == 34 || c == 60 || c == 62 || c == 124

unfoldable pub replace_special : Text → Text
unfolding is_special
replace_special [] = []
replace_special (c ∷ cs) = (if is_special c then b'_' else c) ∷ replace_special cs

unfoldable pub strip_control : Text → Text
unfolding is_control
strip_control [] = []
strip_control (c ∷ cs) = if is_control c then strip_control cs else c ∷ strip_control cs

-- sanitizeFilename
unfoldable pub sanitize_filename : Text → Text
unfolding replace_special strip_control
sanitize_filename name = take 255 (replace_special (strip_control name))

pub record Manifest : Type 0 where
  pub attachment_id : Text
  pub blob_id : Uuid
  pub original_filename : Text
  pub claimed_mime_type : Text
  pub total_plaintext_size : ℕ
  pub chunk_count : ℕ
  pub chunk_size : ℕ
  pub chunk_nonces : List Text
  pub full_file_digest : Opaque
  pub attachment_key : Opaque

abbrev pub all_twelve : List Text → Bool
all_twelve [] = true
all_twelve (n ∷ ns) = length n == 12 && all_twelve ns

-- attachmentManifestSchema, for what is not opaque here.
unfoldable pub is_manifest : Manifest → Bool
is_manifest m =
    length m.attachment_id == 16
    && leb 1 (length m.original_filename)
    && leb (length m.original_filename) 255
    && leb (length m.claimed_mime_type) 255
    && leb m.total_plaintext_size 26214400
    && leb 1 m.chunk_count
    && leb m.chunk_count 400
    && m.chunk_size == 65536
    && all_twelve m.chunk_nonces
    && m.chunk_count == max 1 ((m.total_plaintext_size + 65535) / 65536)
    && count m.chunk_nonces == m.chunk_count

-- What an upload draws: the nonce of each chunk by its index, and that of the local copy.
pub record Draw : Type 0 where
  pub attachment_id : Text
  pub attachment_key : Opaque
  pub blob_id : Uuid
  pub nonce : ℕ → Text
  pub local_nonce : Text

-- A file of the vault: its nonce, tag and ciphertext.
pub record Cached : Type 0 where
  pub attachment_id : Text
  pub nonce : Text
  pub tag : Text
  pub ciphertext : Text

-- A row of `attachments`; `has_path` is whether its path is set. Its encrypted name is left out.
pub record Attached : Type 0 where
  pub attachment_id : Text
  pub message_id : Opaque
  pub has_path : Bool
  pub file_size : ℕ
  pub file_hash : Opaque

-- The files and tables of the vault that attachments use; `vault_key` is its attachment key.
pub record Files : Type 0 where
  pub vault_key : Opaque
  pub cached : List Cached
  pub attached : List Attached
  pub downloads : List Text

-- 'cp-local-attachment-v1:' and the id.
unfoldable pub local_aad : Text → Text
local_aad id =
    b'c' ∷ b'p' ∷ b'-' ∷ b'l' ∷ b'o' ∷ b'c' ∷ b'a' ∷ b'l' ∷ b'-' ∷ b'a' ∷ b't' ∷ b't' ∷ b'a' ∷ b'c'
    ∷ b'h' ∷ b'm' ∷ b'e' ∷ b'n' ∷ b't' ∷ b'-' ∷ b'v' ∷ b'1' ∷ b':' ∷ id

unfoldable pub is_cached : Text → Cached → Bool
is_cached id c = text_eq c.attachment_id id

-- cacheAttachment; writing a file replaces the one at its path.
unfoldable pub cache_attachment : Gcm → Text → Text → Text → Files → Files
unfolding is_cached local_aad
cache_attachment g nonce id p f =
    let (ciphertext, tag) = g.seal f.vault_key nonce (local_aad id) p in
    record f {
      cached =
          record { attachment_id = id; nonce = nonce; tag = tag; ciphertext = ciphertext }
          ∷ delete (is_cached id) f.cached;
    }

unfoldable pub read_cached : Gcm → Text → Option Cached → Files → Option Text
unfolding local_aad
read_cached g id none f = none
read_cached g id (some c) f = g.unseal f.vault_key c.nonce (local_aad id) c.tag c.ciphertext

-- The decryption in readDecryptedAttachment, for a file in the present format.
unfoldable pub read_local : Gcm → Text → Files → Option Text
unfolding read_cached is_cached
read_local g id f = read_cached g id (find (is_cached id) f.cached) f

-- The integrity check, against the attachment's row.
unfoldable pub check_integrity : (Text → Opaque) → Attached → Option Text → Option Text
check_integrity sha256 a none = none
check_integrity sha256 a (some p) =
    if not (length p == a.file_size) || not (sha256 p == a.file_hash) then none else some p

unfoldable pub read_row : Gcm → (Text → Opaque) → Text → Option Attached → Files → Option Text
unfolding check_integrity read_local
read_row g sha256 id none f = none
read_row g sha256 id (some a) f =
    if a.has_path then check_integrity sha256 a (read_local g id f) else none

unfoldable pub is_row : Text → Attached → Bool
is_row id a = text_eq a.attachment_id id

-- readDecryptedAttachment, without the name; `none` is an exception.
unfoldable pub read_attachment : Gcm → (Text → Opaque) → Text → Files → Option Text
unfolding read_row is_row
read_attachment g sha256 id f = read_row g sha256 id (find (is_row id) f.attached) f
