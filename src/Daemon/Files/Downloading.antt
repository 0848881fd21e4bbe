-- ===== src/Daemon/Files/Downloading.antt =====
-- What is uploaded is what is downloaded.
use crypto_pigeon.Prelude.{
  ℕ, zero, suc, ◌+◌, ◌*◌, ◌/◌, ◌≤◌, ◌<◌, ◌≡◌, refl, ap, ◌∙◌, max, true, some, ◌++◌, Text,
  text_eq_refl, arith, take, drop, length, count, ltb,
}
use native.Mathlib.Nat.{zero-add}
use crypto_pigeon.Relay.Db.{Uuid, Opaque, Db}
use crypto_pigeon.Relay.Attachments.{chunk_row, get_chunk}
use crypto_pigeon.Daemon.Files.{
  Gcm, chunk_size, make_aad, chunk_count, chunk_at, sanitize_filename, all_twelve, is_manifest,
  Draw,
}
use crypto_pigeon.Daemon.Files.Sending.{encrypt_chunk, nonces_from, manifest_of}
use crypto_pigeon.Daemon.Files.Fetching.{nth, is_nonce, body_of, tag_of, decrypt_chunk, fetch_from}
use crypto_pigeon.Daemon.Files.Slices.{length-append, take-append, drop-append, joined, joined-eq}
use crypto_pigeon.Daemon.Files.Names.{length-sanitize_filename}
use crypto_pigeon.Daemon.Files.Uploading.{IsGcm}

nth-nonces_from :
    (nonce : ℕ → Text) (i n k : ℕ) → k < n → nth k (nonces_from nonce i n) ≡ some (nonce (i + k))
unfolding nth nonces_from
nth-nonces_from nonce i zero k h = absurd (omega arith)
nth-nonces_from nonce i (suc n) zero h = ap (λ j. some (nonce j)) (omega arith)
nth-nonces_from nonce i (suc n) (suc k) h =
    nth-nonces_from nonce (suc i) n k (omega arith) ∙ ap (λ j. some (nonce j)) (omega arith)

body_of-append : (s t : Text) → length t ≡ 16 → body_of (s ++ t) ≡ s
unfolding body_of
body_of-append s t h =
    ap (λ n. take n (s ++ t)) (omega (arith, length-append s t)) ∙ take-append s t

tag_of-append : (s t : Text) → length t ≡ 16 → tag_of (s ++ t) ≡ t
unfolding tag_of
tag_of-append s t h = ap (λ n. drop n (s ++ t)) (omega (arith, length-append s t)) ∙ drop-append s t

enough_chunks : (n : ℕ) → n ≤ chunk_count n * chunk_size
unfolding chunk_count
enough_chunks n = ground arith

pub chunk_count_bounds :
    (n : ℕ)
    → n ≤ 26214400
    → (1 ≤ chunk_count n) × (chunk_count n ≤ 400) × (chunk_count n ≡ max 1 ((n + 65535) / 65536))
unfolding chunk_count
chunk_count_bounds n h = ground arith

all_twelve-nonces_from :
    (nonce : ℕ → Text) (i n : ℕ)
    → ((i : ℕ) → length (nonce i) ≡ 12)
    → all_twelve (nonces_from nonce i n) ≡ true
unfolding nonces_from
all_twelve-nonces_from nonce i zero h = refl
all_twelve-nonces_from nonce i (suc n) h =
    ground (arith, h i, all_twelve-nonces_from nonce (suc i) n h)

count-nonces_from : (nonce : ℕ → Text) (i n : ℕ) → count (nonces_from nonce i n) ≡ n
unfolding nonces_from
count-nonces_from nonce i zero = refl
count-nonces_from nonce i (suc n) = ap suc (count-nonces_from nonce (suc i) n)

module _ (g : Gcm) (laws : IsGcm g) (sha256 : Text → Opaque) (d : Draw) (p filename : Text)
    (mime : Text) where
  decrypt_chunk-row :
      (blob : Uuid) (i : ℕ)
      → i < chunk_count (length p)
      → decrypt_chunk g
          (manifest_of sha256 d p filename mime)
          i
          (chunk_row blob (encrypt_chunk g d p i))
        ≡ some (chunk_at chunk_size i p)
  unfolding decrypt_chunk manifest_of chunk_row encrypt_chunk is_nonce
  decrypt_chunk-row blob i h =
      let k = d.attachment_key in
      let a = make_aad d.attachment_id i (chunk_count (length p)) in
      let c = chunk_at chunk_size i p in
      let body = (g.seal k (d.nonce i) a c).0 in
      let tag = (g.seal k (d.nonce i) a c).1 in
      let sixteen = laws.tag k (d.nonce i) a c in
      rw (nth-nonces_from d.nonce 0 (chunk_count (length p)) i h) (
        rw (zero-add i, text_eq_refl (d.nonce i))
          (rw (tag_of-append body tag sixteen, body_of-append body tag sixteen)
            (laws.opens k (d.nonce i) a c)))

  fetch_from-joined :
      (db : Db) (i n : ℕ)
      → i + n ≤ chunk_count (length p)
      → ((j : ℕ)
          → ltb j (chunk_count (length p)) ≡ true
          → get_chunk d.blob_id j db ≡ some (chunk_row d.blob_id (encrypt_chunk g d p j)))
      → fetch_from g (manifest_of sha256 d p filename mime) db i n ≡ some (joined chunk_size p i n)
  unfolding fetch_from joined
  fetch_from-joined db i zero room there = refl
  fetch_from-joined db i (suc n) room there =
      let m = manifest_of sha256 d p filename mime in
      let chunk : get_chunk m.blob_id i db ≡ some (chunk_row d.blob_id (encrypt_chunk g d p i)) =
        unfold manifest_of in there i (ground arith) in
      rw chunk (
        rw (decrypt_chunk-row d.blob_id i (omega arith))
          (rw (fetch_from-joined db (suc i) n (omega arith) there) refl))

  -- The whole text, as it is put together from all chunks.
  pub fetch_all :
      (db : Db)
      → ((j : ℕ)
          → ltb j (chunk_count (length p)) ≡ true
          → get_chunk d.blob_id j db ≡ some (chunk_row d.blob_id (encrypt_chunk g d p j)))
      → fetch_from g (manifest_of sha256 d p filename mime) db 0 (chunk_count (length p)) ≡ some p
  fetch_all db there =
      fetch_from-joined db 0 (chunk_count (length p)) (omega arith) there
      ∙ ap some (joined-eq chunk_size (chunk_count (length p)) p (enough_chunks (length p)))

  pub is_manifest-manifest_of :
      length d.attachment_id ≡ 16
      → ((i : ℕ) → length (d.nonce i) ≡ 12)
      → 1 ≤ length (sanitize_filename filename)
      → length mime ≤ 255
      → length p ≤ 26214400
      → is_manifest (manifest_of sha256 d p filename mime) ≡ true
  unfolding is_manifest manifest_of
  is_manifest-manifest_of id short named typed small =
      let n = chunk_count (length p) in
      ground (
        arith,
        length-sanitize_filename filename,
        chunk_count_bounds (length p),
        all_twelve-nonces_from d.nonce 0 n short,
        count-nonces_from d.nonce 0 n,
      )
