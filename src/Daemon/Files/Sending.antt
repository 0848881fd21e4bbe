-- ===== src/Daemon/Files/Sending.antt =====
-- apps/local-daemon/src/attachments.ts, encryptAndUploadAttachment.
use crypto_pigeon.Prelude.{
  ℕ, zero, suc, Bool, true, false, Option, none, some, List, [], ◌∷◌, ◌++◌, Text, length,
  if◌then◌else◌,
}
use crypto_pigeon.Relay.Db.{Uuid, Opaque, Db}
use crypto_pigeon.Relay.Attachments.{
  Announcement, UploadReply, uploaded, invalid_request, upload, ChunkBody, put_chunk,
}
use crypto_pigeon.Relay.Attachments.Chunks.{is_stored}
use crypto_pigeon.Daemon.Files.{
  Draw, Files, Gcm, Manifest, cache_attachment, chunk_at, chunk_count, chunk_size, make_aad,
  sanitize_filename,
}

unfoldable pub encrypt_chunk : Gcm → Draw → Text → ℕ → ChunkBody
unfolding make_aad chunk_count
encrypt_chunk g d p i =
    let (ciphertext, tag) =
      g.seal d.attachment_key (d.nonce i) (make_aad d.attachment_id i (chunk_count (length p)))
        (chunk_at chunk_size i p) in
    record { chunk_index = i; nonce = d.nonce i; ciphertext = ciphertext ++ tag }

-- The loop that encrypts, for `n` chunks from `i` on.
unfoldable pub encrypt_from : Gcm → Draw → Text → ℕ → ℕ → List ChunkBody
unfolding encrypt_chunk
encrypt_from g d p i zero = []
encrypt_from g d p i (suc n) = encrypt_chunk g d p i ∷ encrypt_from g d p (suc i) n

unfoldable pub nonces_from : (ℕ → Text) → ℕ → ℕ → List Text
nonces_from nonce i zero = []
nonces_from nonce i (suc n) = nonce i ∷ nonces_from nonce (suc i) n

-- The loop that uploads; it ends at the first refusal.
unfoldable pub put_all : Uuid → Uuid → List ChunkBody → Db → Bool × Db
put_all device blob [] db = (true, db)
put_all device blob (b ∷ bs) db =
    let (reply, db') = put_chunk device blob b db in
    let rest = put_all device blob bs db' in if is_stored reply then rest else (false, db')

unfoldable pub announcement : Draw → Text → Announcement
announcement d p = record {
  blob_id = d.blob_id;
  chunk_count = chunk_count (length p);
  total_size = length p;
}

unfoldable pub manifest_of : (Text → Opaque) → Draw → Text → Text → Text → Manifest
manifest_of sha256 d p filename mime = record {
  attachment_id = d.attachment_id;
  blob_id = d.blob_id;
  original_filename = sanitize_filename filename;
  claimed_mime_type = mime;
  total_plaintext_size = length p;
  chunk_count = chunk_count (length p);
  chunk_size = chunk_size;
  chunk_nonces = nonces_from d.nonce 0 (chunk_count (length p));
  full_file_digest = sha256 p;
  attachment_key = d.attachment_key;
}

unfoldable pub is_uploaded : UploadReply → Bool
is_uploaded uploaded = true
is_uploaded invalid_request = false

-- After the announcement of the blob.
unfoldable pub upload_chunks : Gcm → Uuid → Draw → Text → Db → Bool × Db
upload_chunks g device d p db =
    put_all device d.blob_id (encrypt_from g d p 0 (chunk_count (length p))) db

unfoldable pub finish_upload :
    Gcm → Draw → Text → Manifest → Bool × Db → Files → Option Manifest × Db × Files
unfolding cache_attachment
finish_upload g d p m (false, db) f = (none, db, f)
finish_upload g d p m (true, db) f =
    (some m, db, cache_attachment g d.local_nonce d.attachment_id p f)

-- encryptAndUploadAttachment; `none` where it throws.
unfoldable pub upload_attachment :
    Gcm
    → (Text → Opaque)
    → Uuid
    → Draw
    → Text
    → Text
    → Text
    → Db
    → Files
    → Option Manifest × Db × Files
unfolding is_uploaded
upload_attachment g sha256 device d p filename mime db f =
    let (reply, db') = upload device (announcement d p) db in
    if is_uploaded reply
    then finish_upload g d p (manifest_of sha256 d p filename mime) (upload_chunks g device d p db')
        f
    else (none, db', f)
