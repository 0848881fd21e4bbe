-- ===== src/Relay/Attachments.antt =====
-- apps/relay-server/src/attachments.ts: encrypted attachments, uploaded in chunks.
-- Nonces and ciphertexts are the bytes that their base64 text stands for.
pub mod Chunks
pub mod Bounds
use crypto_pigeon.Prelude.{
  ℕ, ◌+◌, ◌*◌, ◌/◌, max, Bool, true, false, not, ◌&&◌, ◌||◌, Option, none, some, List, [], ◌∷◌,
  ◌++◌, Text, length, find, any, update, delete, ◌==◌, ltb, leb, if◌then◌else◌,
}
use crypto_pigeon.Relay.Db.{Uuid, Blob, Chunk, Db}

-- The body of POST /api/attachments/upload.
pub record Announcement : Type 0 where
  pub blob_id : Uuid
  pub chunk_count : ℕ
  pub total_size : ℕ

-- `Math.ceil(totalSize / 65536)`
unfoldable pub chunks_for : ℕ → ℕ
chunks_for size = (size + 65535) / 65536

-- The schema of the body.
unfoldable pub is_valid : Announcement → Bool
unfolding chunks_for
is_valid a =
    leb 1 a.chunk_count
    && leb a.chunk_count 400
    && leb a.total_size 26214400
    && a.chunk_count == max 1 (chunks_for a.total_size)

pub data UploadReply : Type 0 where
  invalid_request uploaded : UploadReply

-- POST /api/attachments/upload; a blob that exists is left as it is.
unfoldable pub upload : Uuid → Announcement → Db → UploadReply × Db
upload device a db =
    if not (is_valid a)
    then (invalid_request, db)
    else if any (λ b. b.blob_id == a.blob_id) db.blobs
    then (uploaded, db)
    else (
      uploaded,
      record db {
        blobs =
            db.blobs
            ++ record {
              blob_id = a.blob_id;
              owner_device_id = device;
              chunk_count = a.chunk_count;
              total_size = a.total_size;
            }
              ∷ [];
      },
    )

-- The body of POST /api/attachments/:blobId/chunks.
pub record ChunkBody : Type 0 where
  pub chunk_index : ℕ
  pub nonce : Text
  pub ciphertext : Text

pub data Failure : Type 0 where
  blob_not_found blob_upload_not_owner invalid_attachment_chunk chunk_index_out_of_bounds : Failure

pub data ChunkReply : Type 0 where
  failed : Failure → ChunkReply
  chunk_stored : ChunkReply

unfoldable pub is_chunk : Uuid → ℕ → Chunk → Bool
is_chunk blob index c = c.blob_id == blob && c.chunk_index == index

unfoldable pub chunk_row : Uuid → ChunkBody → Chunk
chunk_row blob body = record {
  blob_id = blob;
  chunk_index = body.chunk_index;
  nonce = body.nonce;
  ciphertext = body.ciphertext;
}

unfoldable pub overwrite : ChunkBody → Chunk → Chunk
overwrite body c = record c { nonce = body.nonce; ciphertext = body.ciphertext }

unfoldable pub upsert_chunk : Uuid → ChunkBody → List Chunk → List Chunk
upsert_chunk blob body rows =
    if any (is_chunk blob body.chunk_index) rows
    then update (is_chunk blob body.chunk_index) (overwrite body) rows
    else rows ++ chunk_row blob body ∷ []

unfoldable pub is_sized : ChunkBody → Bool
is_sized body =
    length body.nonce == 12 && leb (length body.ciphertext) 65552 && leb 16 (length body.ciphertext)

unfoldable pub put_for : Uuid → Uuid → ChunkBody → Option Blob → Db → ChunkReply × Db
put_for device blob body none db = (failed blob_not_found, db)
put_for device blob body (some b) db =
    if not (b.owner_device_id == device)
    then (failed blob_upload_not_owner, db)
    else if not (is_sized body)
    then (failed invalid_attachment_chunk, db)
    else if leb b.chunk_count body.chunk_index
    then (failed chunk_index_out_of_bounds, db)
    else (chunk_stored, record db { chunks = upsert_chunk blob body db.chunks })

-- POST /api/attachments/:blobId/chunks
unfoldable pub put_chunk : Uuid → Uuid → ChunkBody → Db → ChunkReply × Db
put_chunk device blob body db = put_for device blob body (find (λ b. b.blob_id == blob) db.blobs) db

-- GET /api/attachments/:blobId/chunks/:chunkIndex; `none` for a chunk that is not found.
unfoldable pub get_chunk : Uuid → ℕ → Db → Option Chunk
get_chunk blob index db = find (is_chunk blob index) db.chunks

pub data DeleteReply : Type 0 where
  nothing_deleted deleted : DeleteReply

-- DELETE /api/attachments/:blobId, by whichever device; the chunks go with their blob.
unfoldable pub delete_blob : Uuid → Db → DeleteReply × Db
delete_blob blob db =
    if any (λ b. b.blob_id == blob) db.blobs
    then (
      deleted,
      record db {
        blobs = delete (λ b. b.blob_id == blob) db.blobs;
        chunks = delete (λ c. c.blob_id == blob) db.chunks;
      },
    )
    else (nothing_deleted, db)
