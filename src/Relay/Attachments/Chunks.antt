-- ===== src/Relay/Attachments/Chunks.antt =====
-- Uploading, fetching and deleting the chunks of a blob.
use crypto_pigeon.Prelude.{
  Bool, ◌&&◌, ℕ, ◌≡◌, refl, true, false, Option, none, some, List, [], ◌∷◌, ◌++◌, arith, find, any,
  update, delete, ◌==◌, leb, if◌then◌else◌, Bool-cases, inl, inr,
}
use crypto_pigeon.Relay.Db.{Uuid, Blob, Chunk, Db}
use crypto_pigeon.Relay.Attachments.{
  ChunkReply, failed, ChunkBody, chunk_stored, is_chunk, chunk_row, overwrite, upsert_chunk,
  is_sized, put_for, put_chunk, get_chunk, deleted, delete_blob,
}

module _ (blob : Uuid) (body : ChunkBody) where
  find-overwrite :
      (rows : List Chunk)
      → any (is_chunk blob body.chunk_index) rows ≡ true
      → find
          (is_chunk blob body.chunk_index)
          (update (is_chunk blob body.chunk_index) (overwrite body) rows)
        ≡ some (chunk_row blob body)
  unfolding is_chunk overwrite chunk_row
  find-overwrite [] h = absurd (cc h)
  find-overwrite (r ∷ rs) h = ground (arith, find-overwrite rs)

  find-appended :
      (rows : List Chunk)
      → any (is_chunk blob body.chunk_index) rows ≡ false
      → find (is_chunk blob body.chunk_index) (rows ++ chunk_row blob body ∷ [])
        ≡ some (chunk_row blob body)
  unfolding is_chunk chunk_row
  find-appended [] h = ground arith
  find-appended (r ∷ rs) h = ground (arith, find-appended rs)

  find-overwrite_other :
      (other : Uuid) (index : ℕ) (rows : List Chunk)
      → is_chunk other index (chunk_row blob body) ≡ false
      → find (is_chunk other index) (update (is_chunk blob body.chunk_index) (overwrite body) rows)
        ≡ find (is_chunk other index) rows
  unfolding is_chunk overwrite chunk_row
  find-overwrite_other other index [] ne = refl
  find-overwrite_other other index (r ∷ rs) ne = ground (arith, find-overwrite_other other index rs)

  find-appended_other :
      (other : Uuid) (index : ℕ) (rows : List Chunk)
      → is_chunk other index (chunk_row blob body) ≡ false
      → find (is_chunk other index) (rows ++ chunk_row blob body ∷ [])
        ≡ find (is_chunk other index) rows
  unfolding is_chunk chunk_row
  find-appended_other other index [] ne = ground arith
  find-appended_other other index (r ∷ rs) ne = ground (arith, find-appended_other other index rs)

  find-upsert :
      (rows : List Chunk)
      → find (is_chunk blob body.chunk_index) (upsert_chunk blob body rows)
        ≡ some (chunk_row blob body)
  unfolding upsert_chunk
  find-upsert rows = elim (Bool-cases (any (is_chunk blob body.chunk_index) rows)) [
    | inl there ↦ rw there (find-overwrite rows there)
    | inr new ↦ rw new (find-appended rows new)
  ]

  find-upsert_other :
      (other : Uuid) (index : ℕ) (rows : List Chunk)
      → is_chunk other index (chunk_row blob body) ≡ false
      → find (is_chunk other index) (upsert_chunk blob body rows) ≡ find (is_chunk other index) rows
  unfolding upsert_chunk
  find-upsert_other other index rows ne =
      ground
        (arith, find-overwrite_other other index rows ne, find-appended_other other index rows ne)

is_chunk-row :
    (other : Uuid) (index : ℕ) (blob : Uuid) (body : ChunkBody)
    → is_chunk other index (chunk_row blob body) ≡ true
    → (other ≡ blob) × (index ≡ body.chunk_index)
unfolding is_chunk chunk_row
is_chunk-row other index blob body h = ground arith

find-upsert_any :
    (blob : Uuid) (body : ChunkBody) (other : Uuid) (index : ℕ) (rows : List Chunk)
    → find (is_chunk other index) (upsert_chunk blob body rows) ≡ (
        if is_chunk other index (chunk_row blob body)
        then some (chunk_row blob body)
        else find (is_chunk other index) rows)
find-upsert_any blob body other index rows =
    elim (Bool-cases (is_chunk other index (chunk_row blob body))) [
      | inr apart ↦ rw apart (find-upsert_other blob body other index rows apart)
      | inl here ↦
          let (same_blob, same_index) = is_chunk-row other index blob body here in
          rw here (rw (same_blob, same_index) (find-upsert blob body rows))
    ]

unfoldable pub is_stored : ChunkReply → Bool
is_stored (failed f) = false
is_stored chunk_stored = true

put_for_lem :
    (device blob other : Uuid) (index : ℕ) (body : ChunkBody) (o : Option Blob) (db : Db)
    → find (is_chunk other index) (put_for device blob body o db).1.chunks ≡ (
        if is_stored (put_for device blob body o db).0 && is_chunk other index (chunk_row blob body)
        then some (chunk_row blob body)
        else find (is_chunk other index) db.chunks)
unfolding put_for is_stored
put_for_lem device blob other index body none db = refl
put_for_lem device blob other index body (some b) db =
    elim (Bool-cases (b.owner_device_id == device)) [
      | inr foreign ↦ rw foreign refl
      | inl own ↦ elim (Bool-cases (is_sized body)) [
        | inr bad ↦ rw (own, bad) refl
        | inl sized ↦ elim (Bool-cases (leb b.chunk_count body.chunk_index)) [
          | inl out ↦ rw (own, sized, out) refl
          | inr within ↦ rw (own, sized, within) (find-upsert_any blob body other index db.chunks)
        ]
      ]
    ]

-- What is fetched after a chunk is put: the chunk itself for its blob and index, if it was stored,
-- and otherwise, for every other blob and index or after a refusal, what was there before.
pub get_chunk-put_chunk :
    (device blob other : Uuid) (index : ℕ) (body : ChunkBody) (db : Db)
    → get_chunk other index (put_chunk device blob body db).1 ≡ (
        if is_stored (put_chunk device blob body db).0 && is_chunk other index (chunk_row blob body)
        then some (chunk_row blob body)
        else get_chunk other index db)
unfolding put_chunk get_chunk
get_chunk-put_chunk device blob other index body db =
    put_for_lem device blob other index body (find (λ b. b.blob_id == blob) db.blobs) db

find-delete_chunks :
    (blob other : Uuid) (index : ℕ) (rows : List Chunk)
    → find (is_chunk other index) (delete (λ c. c.blob_id == blob) rows)
      ≡ (if other == blob then none else find (is_chunk other index) rows)
unfolding is_chunk
find-delete_chunks blob other index [] = ground arith
find-delete_chunks blob other index (r ∷ rs) =
    ground (arith, find-delete_chunks blob other index rs)

-- After a deletion no chunk of the blob is left, and the chunks of other blobs are as they were.
pub get_chunk-delete_blob :
    (blob other : Uuid) (index : ℕ) (db : Db)
    → (delete_blob blob db).0 ≡ deleted
    → get_chunk other index (delete_blob blob db).1
      ≡ (if other == blob then none else get_chunk other index db)
unfolding delete_blob get_chunk
get_chunk-delete_blob blob other index db h =
    elim (Bool-cases (any (λ b. b.blob_id == blob) db.blobs)) [
      | inr absent ↦ absurd (cc (rw absent at h))
      | inl there ↦ rw there (find-delete_chunks blob other index db.chunks)
    ]
