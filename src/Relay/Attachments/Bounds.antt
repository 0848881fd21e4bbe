-- ===== src/Relay/Attachments/Bounds.antt =====
-- The invariant of the attachment tables: every chunk stands within an announced blob.
use crypto_pigeon.Prelude.{
  ℕ, ◌<◌, ◌≤◌, ◌≡◌, refl, Bool, true, false, ◌&&◌, Option, none, some, List, [], ◌∷◌, ◌++◌, arith,
  length, find, any, All, delete, ◌==◌, ltb, leb, Bool-cases, inl, inr,
}
use crypto_pigeon.Prelude.Rows.Laws.{
  any-append_left, any_of_found, All-append, All-update, find-holds,
}
use crypto_pigeon.Relay.Db.{Uuid, Blob, Chunk, Db}
use crypto_pigeon.Relay.Attachments.{
  Announcement, is_valid, upload, ChunkBody, is_chunk, chunk_row, overwrite, upsert_chunk, is_sized,
  put_for, put_chunk, delete_blob,
}

-- A blob's row that has room for the index.
unfoldable pub holds : Uuid → ℕ → Blob → Bool
holds blob index b = b.blob_id == blob && ltb index b.chunk_count

-- A chunk of an announced blob, at an index below the blob's count, of at most 64 KiB and a tag.
abbrev pub IsPlaced : List Blob → Chunk → Type 0
IsPlaced blobs c =
    (any (holds c.blob_id c.chunk_index) blobs ≡ true) × (length c.ciphertext ≤ 65552)

abbrev pub ArePlaced : Db → Type 0
ArePlaced db = All (IsPlaced db.blobs) db.chunks

IsPlaced-more :
    (blobs : List Blob) (b : Blob) (cs : List Chunk)
    → All (IsPlaced blobs) cs
    → All (IsPlaced (blobs ++ b ∷ [])) cs
IsPlaced-more blobs b [] h = tt
IsPlaced-more blobs b (c ∷ cs) ((there, size), hs) = (
  (any-append_left (holds c.blob_id c.chunk_index) blobs (b ∷ []) there, size),
  IsPlaced-more blobs b cs hs,
)

kept-holds :
    (blob : Uuid) (c : Chunk) (blobs : List Blob)
    → (c.blob_id == blob) ≡ false
    → any (holds c.blob_id c.chunk_index) blobs ≡ true
    → any (holds c.blob_id c.chunk_index) (delete (λ b. b.blob_id == blob) blobs) ≡ true
unfolding holds
kept-holds blob c [] other h = h
kept-holds blob c (b ∷ bs) other h = ground (arith, kept-holds blob c bs other)

IsPlaced-fewer :
    (blob : Uuid) (blobs : List Blob) (cs : List Chunk)
    → All (IsPlaced blobs) cs
    → All (IsPlaced (delete (λ b. b.blob_id == blob) blobs)) (delete (λ c. c.blob_id == blob) cs)
IsPlaced-fewer blob blobs [] h = tt
IsPlaced-fewer blob blobs (c ∷ cs) ((there, size), hs) = elim (Bool-cases (c.blob_id == blob)) [
  | inl own ↦ rw own (IsPlaced-fewer blob blobs cs hs)
  | inr other ↦
      rw other ((kept-holds blob c blobs other there, size), IsPlaced-fewer blob blobs cs hs)
]

overwritten-IsPlaced :
    (blob : Uuid) (body : ChunkBody) (blobs : List Blob) (c : Chunk)
    → IsPlaced blobs (chunk_row blob body)
    → IsPlaced blobs c
    → IsPlaced blobs (overwrite body c)
unfolding overwrite chunk_row
overwritten-IsPlaced blob body blobs c (new, size) (there, old) = (there, size)

upsert-IsPlaced :
    (blob : Uuid) (body : ChunkBody) (blobs : List Blob) (cs : List Chunk)
    → IsPlaced blobs (chunk_row blob body)
    → All (IsPlaced blobs) cs
    → All (IsPlaced blobs) (upsert_chunk blob body cs)
unfolding upsert_chunk
upsert-IsPlaced blob body blobs cs new h =
    elim (Bool-cases (any (is_chunk blob body.chunk_index) cs)) [
      | inl there ↦ rw there (
          All-update (IsPlaced blobs) (is_chunk blob body.chunk_index) (overwrite body) cs
            (λ c ok own. overwritten-IsPlaced blob body blobs c new ok) h)
      | inr absent ↦
          rw absent (All-append (IsPlaced blobs) cs (chunk_row blob body ∷ []) h (new, tt))
    ]

upload-ArePlaced :
    (device : Uuid) (a : Announcement) (db : Db) → ArePlaced db → ArePlaced (upload device a db).1
unfolding upload
upload-ArePlaced device a db h = elim (Bool-cases (is_valid a)) [
  | inr bad ↦ rw bad h
  | inl good ↦ elim (Bool-cases (any (λ b. b.blob_id == a.blob_id) db.blobs)) [
    | inl there ↦ rw (good, there) h
    | inr new ↦ rw (good, new) (IsPlaced-more db.blobs _ db.chunks h)
  ]
]

sized-length : (body : ChunkBody) → is_sized body ≡ true → length body.ciphertext ≤ 65552
unfolding is_sized
sized-length body h = ground arith

row-IsPlaced :
    (blob : Uuid) (body : ChunkBody) (b : Blob) (blobs : List Blob)
    → find (λ b. b.blob_id == blob) blobs ≡ some b
    → is_sized body ≡ true
    → body.chunk_index < b.chunk_count
    → IsPlaced blobs (chunk_row blob body)
unfolding chunk_row holds
row-IsPlaced blob body b blobs e sized lt = (
  any_of_found (λ b. b.blob_id == blob) (holds blob body.chunk_index) blobs b e
      (ground (arith, find-holds (λ b. b.blob_id == blob) blobs b e)),
  sized-length body sized,
)

put_for-ArePlaced :
    (device blob : Uuid) (body : ChunkBody) (o : Option Blob) (db : Db)
    → find (λ b. b.blob_id == blob) db.blobs ≡ o
    → ArePlaced db
    → ArePlaced (put_for device blob body o db).1
unfolding put_for
put_for-ArePlaced device blob body none db e h = h
put_for-ArePlaced device blob body (some b) db e h =
    elim (Bool-cases (b.owner_device_id == device)) [
      | inr foreign ↦ rw foreign h
      | inl own ↦ elim (Bool-cases (is_sized body)) [
        | inr bad ↦ rw (own, bad) h
        | inl sized ↦ elim (Bool-cases (leb b.chunk_count body.chunk_index)) [
          | inl out ↦ rw (own, sized, out) h
          | inr within ↦
              rw (own, sized, within)
                (upsert-IsPlaced blob body db.blobs db.chunks
                  (row-IsPlaced blob body b db.blobs e sized (ground arith)) h)
        ]
      ]
    ]

delete_blob-ArePlaced : (blob : Uuid) (db : Db) → ArePlaced db → ArePlaced (delete_blob blob db).1
unfolding delete_blob
delete_blob-ArePlaced blob db h = elim (Bool-cases (any (λ b. b.blob_id == blob) db.blobs)) [
  | inl there ↦ rw there (IsPlaced-fewer blob db.blobs db.chunks h)
  | inr absent ↦ rw absent h
]

-- Each request on attachments keeps every stored chunk within an announced blob, at an index below
-- the announced count, with a ciphertext of at most 64 KiB and a tag.
pub requests-ArePlaced :
    (device blob : Uuid) (a : Announcement) (body : ChunkBody) (db : Db)
    → ArePlaced db
    → ArePlaced (upload device a db).1
      × ArePlaced (put_chunk device blob body db).1
      × ArePlaced (delete_blob blob db).1
unfolding put_chunk
requests-ArePlaced device blob a body db h = (
  upload-ArePlaced device a db h,
  put_for-ArePlaced device blob body (find (λ b. b.blob_id == blob) db.blobs) db refl h,
  delete_blob-ArePlaced blob db h,
)
