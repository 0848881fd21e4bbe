-- ===== src/Daemon/Files/Uploading.antt =====
-- The relay accepts the chunks of an upload, and has each of them afterwards.
use crypto_pigeon.Prelude.{
  ℕ, zero, suc, ◌+◌, ◌*◌, ◌≤◌, ◌<◌, ◌≡◌, refl, ap, ◌∙◌, Bool, true, ◌&&◌, some, Text, arith, drop,
  length, find, ◌==◌, leb, ltb, if◌then◌else◌, Bool-cases, inl, inr,
}
use crypto_pigeon.Relay.Db.{Uuid, Opaque, Blob, Db}
use crypto_pigeon.Relay.Attachments.{
  ChunkBody, chunk_stored, is_chunk, chunk_row, is_sized, put_for, put_chunk, get_chunk,
}
use crypto_pigeon.Relay.Attachments.Chunks.{is_stored, get_chunk-put_chunk}
use crypto_pigeon.Daemon.Files.{Gcm, chunk_size, make_aad, chunk_count, chunk_at, Draw}
use crypto_pigeon.Daemon.Files.Sending.{encrypt_chunk, encrypt_from, put_all}
use crypto_pigeon.Daemon.Files.Slices.{length-append, chunk_at-take, length-take}

-- What is documented of AES-256-GCM: unsealing with the same key, nonce and data gives the plaintext
-- back, the ciphertext is as long as the plaintext, and the tag has 16 bytes.
pub record IsGcm (g : Gcm) : Type 0 where
  pub opens :
      (k : Opaque) (n a p : Text) → g.unseal k n a (g.seal k n a p).1 (g.seal k n a p).0 ≡ some p
  pub body : (k : Opaque) (n a p : Text) → length (g.seal k n a p).0 ≡ length p
  pub tag : (k : Opaque) (n a p : Text) → length (g.seal k n a p).1 ≡ 16

put_chunk-stored :
    (device blob : Uuid) (body : ChunkBody) (b : Blob) (db : Db)
    → find (λ b. b.blob_id == blob) db.blobs ≡ some b
    → b.owner_device_id ≡ device
    → is_sized body ≡ true
    → body.chunk_index < b.chunk_count
    → ((put_chunk device blob body db).0 ≡ chunk_stored)
      × ((put_chunk device blob body db).1.blobs ≡ db.blobs)
unfolding put_chunk put_for
put_chunk-stored device blob body b db e own sized within = rw e (ground arith)

module _ (g : Gcm) (laws : IsGcm g) (d : Draw) (short : (i : ℕ) → length (d.nonce i) ≡ 12)
    (p : Text) where
  encrypt_chunk-sized : (i : ℕ) → is_sized (encrypt_chunk g d p i) ≡ true
  unfolding is_sized encrypt_chunk
  encrypt_chunk-sized i =
      let k = d.attachment_key in
      let a = make_aad d.attachment_id i (chunk_count (length p)) in
      let c = chunk_at chunk_size i p in
      let small : length c ≤ 65536 = omega (
        arith,
        ap length (chunk_at-take chunk_size i p),
        length-take chunk_size (drop (i * chunk_size) p),
      ) in
      ground (
        arith,
        short i,
        length-append (g.seal k (d.nonce i) a c).0 (g.seal k (d.nonce i) a c).1,
        laws.body k (d.nonce i) a c,
        laws.tag k (d.nonce i) a c,
      )

  -- The relay after the chunks from `i` on, `n` of them.
  pub record HasChunks (blob : Uuid) (i n : ℕ) (before : Db) (result : Bool × Db) : Type 0 where
    pub accepted : result.0 ≡ true
    pub blobs : result.1.blobs ≡ before.blobs
    pub chunks :
        (j : ℕ)
        → get_chunk blob j result.1 ≡ (
            if leb i j && ltb j (i + n)
            then some (chunk_row blob (encrypt_chunk g d p j))
            else get_chunk blob j before)

  row_index :
      (blob : Uuid) (i j : ℕ) → is_chunk blob j (chunk_row blob (encrypt_chunk g d p i)) ≡ (i == j)
  unfolding is_chunk chunk_row encrypt_chunk
  row_index blob i j = ground arith

  same_row :
      (blob : Uuid) (i j : ℕ)
      → (i == j) ≡ true
      → some (chunk_row blob (encrypt_chunk g d p i))
        ≡ some (chunk_row blob (encrypt_chunk g d p j))
  same_row blob i j h =
      let e : i ≡ j = ground arith in ap (λ k. some (chunk_row blob (encrypt_chunk g d p k))) e

  chunk-after :
      (device blob : Uuid) (i j : ℕ) (db : Db)
      → (put_chunk device blob (encrypt_chunk g d p i) db).0 ≡ chunk_stored
      → get_chunk blob j (put_chunk device blob (encrypt_chunk g d p i) db).1
        ≡ (if i == j then some (chunk_row blob (encrypt_chunk g d p j)) else get_chunk blob j db)
  unfolding is_stored
  chunk-after device blob i j db ok =
      get_chunk-put_chunk device blob blob j (encrypt_chunk g d p i) db
      ∙ rw (ok, row_index blob i j)
          (elim (Bool-cases (i == j)) [ inl e ↦ rw e (same_row blob i j e) | inr e ↦ rw e refl ])

  HasChunks-step :
      (device blob : Uuid) (i n : ℕ) (db : Db) (rest : Bool × Db)
      → (put_chunk device blob (encrypt_chunk g d p i) db).0 ≡ chunk_stored
      → (put_chunk device blob (encrypt_chunk g d p i) db).1.blobs ≡ db.blobs
      → HasChunks blob (suc i) n (put_chunk device blob (encrypt_chunk g d p i) db).1 rest
      → HasChunks blob i (suc n) db rest
  HasChunks-step device blob i n db rest ok same h = record {
    accepted = h.accepted;
    blobs = h.blobs ∙ same;
    chunks = λ j. ground (arith, h.chunks j, chunk-after device blob i j db ok);
  }

  pub put_all-HasChunks :
      (device blob : Uuid) (b : Blob) (i n : ℕ) (db : Db)
      → find (λ b. b.blob_id == blob) db.blobs ≡ some b
      → b.owner_device_id ≡ device
      → i + n ≤ b.chunk_count
      → HasChunks blob i n db (put_all device blob (encrypt_from g d p i n) db)
  unfolding put_all encrypt_from is_stored
  put_all-HasChunks device blob b i zero db e own room = record {
    accepted = refl;
    blobs = refl;
    chunks = λ j. ground arith;
  }
  put_all-HasChunks device blob b i (suc n) db e own room =
      let (ok, same) =
        put_chunk-stored device blob (encrypt_chunk g d p i) b db e own (encrypt_chunk-sized i)
          (unfold encrypt_chunk in omega arith) in
      let db' = (put_chunk device blob (encrypt_chunk g d p i) db).1 in
      let rest =
        put_all-HasChunks device blob b (suc i) n db'
          (ap (find (λ (b : Blob). b.blob_id == blob)) same ∙ e) own (omega arith) in
      HasChunks-step device blob i n db _ ok same (rw ok rest)
