-- ===== src/Daemon/Files/Delivery.antt =====
-- An attachment from one client to another, by way of the relay.
use crypto_pigeon.Prelude.{
  ℕ, ◌≤◌, ◌≡◌, refl, ◌∙◌, Bool, true, false, Option, some, List, [], ◌∷◌, ◌++◌, Text, text_eq_refl,
  arith, length, find, any, update, text_eq, ap, sym, subst, ◌==◌, ==_refl, Bool-cases, inl, inr,
}
use crypto_pigeon.Prelude.Rows.Laws.{any-delete_none, any_of_found, find-holds}
use crypto_pigeon.Prelude.Rows.Finds.{find-append_none, find-any}
use crypto_pigeon.Relay.Db.{Uuid, Opaque, Blob, Db}
use crypto_pigeon.Relay.Attachments.{uploaded, upload, is_valid, delete_blob}
use crypto_pigeon.Daemon.Files.{
  Gcm, chunk_count, sanitize_filename, Manifest, Draw, Attached, Files, local_aad, is_row,
  check_integrity, read_row, read_attachment, is_cached, cache_attachment, read_cached, read_local,
}
use crypto_pigeon.Daemon.Files.Sending.{
  announcement, manifest_of, is_uploaded, upload_chunks, finish_upload, upload_attachment,
}
use crypto_pigeon.Daemon.Files.Fetching.{
  fetch_from, is_attached, record_download, finish_download, download_attachment,
}
use crypto_pigeon.Daemon.Files.Uploading.{IsGcm, HasChunks, put_all-HasChunks}
use crypto_pigeon.Daemon.Files.Downloading.{chunk_count_bounds, fetch_all, is_manifest-manifest_of}

-- The row of the announced blob.
abbrev blob_row : Uuid → Draw → Text → Blob
blob_row device d p = record {
  blob_id = d.blob_id;
  owner_device_id = device;
  chunk_count = chunk_count (length p);
  total_size = length p;
}

abbrev announced : Uuid → Draw → Text → Db → Db
announced device d p db = record db { blobs = db.blobs ++ blob_row device d p ∷ [] }

upload-announced :
    (device : Uuid) (d : Draw) (p : Text) (db : Db)
    → length p ≤ 26214400
    → any (λ b. b.blob_id == d.blob_id) db.blobs ≡ false
    → upload device (announcement d p) db ≡ (uploaded, announced device d p db)
unfolding upload announcement
upload-announced device d p db small fresh =
    let valid : is_valid (announcement d p) ≡ true =
      unfold is_valid in ground (arith, chunk_count_bounds (length p)) in
    rw (valid, fresh) refl

find-announced :
    (device : Uuid) (d : Draw) (p : Text) (db : Db)
    → any (λ b. b.blob_id == d.blob_id) db.blobs ≡ false
    → find (λ b. b.blob_id == d.blob_id) (announced device d p db).blobs
      ≡ some (blob_row device d p)
find-announced device d p db fresh =
    find-append_none (λ b. b.blob_id == d.blob_id) db.blobs (blob_row device d p ∷ [])
      (find-any (λ b. b.blob_id == d.blob_id) db.blobs fresh)
    ∙ rw (==_refl d.blob_id) refl

-- The copy that the vault keeps is the attachment.
pub read_local-cache_attachment :
    (g : Gcm)
    → IsGcm g
    → (nonce id p : Text) (f : Files) → read_local g id (cache_attachment g nonce id p f) ≡ some p
unfolding read_local cache_attachment read_cached is_cached
read_local-cache_attachment g laws nonce id p f =
    rw (text_eq_refl id) (laws.opens f.vault_key nonce (local_aad id) p)

finish_upload-accepted :
    (g : Gcm) (d : Draw) (p : Text) (m : Manifest) (result : Bool × Db) (f : Files)
    → result.0 ≡ true
    → finish_upload g d p m result f
      ≡ (some m, result.1, cache_attachment g d.local_nonce d.attachment_id p f)
unfolding finish_upload
finish_upload-accepted g d p m (true, db) f h = refl
finish_upload-accepted g d p m (false, db) f h = absurd (cc h)

finish_download-accepted :
    (g : Gcm) (sha256 : Text → Opaque) (nonce : Text) (m : Manifest) (message : Opaque) (p : Text)
    (db : Db) (f : Files)
    → m.full_file_digest ≡ sha256 p
    → m.total_plaintext_size ≡ length p
    → any (is_attached m.attachment_id message) f.attached ≡ true
    → finish_download g sha256 nonce m message (some p) db f ≡ (
      some p,
      (delete_blob m.blob_id db).1,
      record_download m message (cache_attachment g nonce m.attachment_id p f),
    )
unfolding finish_download
finish_download-accepted g sha256 nonce m message p db f digest size there =
    let attached : any (is_attached m.attachment_id message)
          (cache_attachment g nonce m.attachment_id p f).attached
        ≡ true =
      unfold cache_attachment in there in
    rw (digest, ==_refl (sha256 p)) (rw (size, ==_refl (length p)) (rw attached refl))

read_local-record_download :
    (g : Gcm) (id : Text) (m : Manifest) (message : Opaque) (f : Files)
    → read_local g id (record_download m message f) ≡ read_local g id f
unfolding read_local read_cached record_download
read_local-record_download g id m message f = ground arith

delete_blob-gone :
    (blob : Uuid) (db : Db) → any (λ b. b.blob_id == blob) (delete_blob blob db).1.blobs ≡ false
unfolding delete_blob
delete_blob-gone blob db = elim (Bool-cases (any (λ b. b.blob_id == blob) db.blobs)) [
  | inl there ↦
      rw there
        (any-delete_none (λ b. b.blob_id == blob) (λ b. b.blob_id == blob) db.blobs (λ b h. h))
  | inr absent ↦ rw absent absent
]

update-row :
    (id : Text) (message : Opaque) (rows : List Attached) (row : Attached)
    → find (is_row id) rows ≡ some row
    → row.message_id ≡ message
    → find (is_row id) (update (is_attached id message) (λ a. record a { has_path = true }) rows)
      ≡ some (record row { has_path = true })
unfolding is_row is_attached
update-row id message [] row e same = absurd (cc e)
update-row id message (a ∷ rows) row e same = elim (Bool-cases (text_eq a.attachment_id id)) [
  | inr other ↦ rw other (rw other (update-row id message rows row (rw other at e) same))
  | inl mine ↦
      let found : a ≡ row = ground (arith, (rw mine at e)) in
      let here : (a.message_id == message) ≡ true =
        subst (λ (r : Attached). (r.message_id == message) ≡ true) (sym found)
          (rw same (==_refl message)) in
      rw (mine, here) (rw mine (ap (λ (r : Attached). some (record r { has_path = true })) found))
]

-- The row of the attachment, which the message has brought.
pub record IsRecorded (sha256 : Text → Opaque) (id : Text) (message : Opaque) (p : Text) (f : Files)
    : Type 0 where
  pub row : Attached
  pub first : find (is_row id) f.attached ≡ some row
  pub linked : row.message_id ≡ message
  pub size : row.file_size ≡ length p
  pub hash : row.file_hash ≡ sha256 p

-- What is recorded and kept can be read, once the path is set.
read_attachment-kept :
    (g : Gcm) (sha256 : Text → Opaque) (id p : Text) (f : Files) (row : Attached)
    → find (is_row id) f.attached ≡ some row
    → row.has_path ≡ true
    → row.file_size ≡ length p
    → row.file_hash ≡ sha256 p
    → read_local g id f ≡ some p
    → read_attachment g sha256 id f ≡ some p
unfolding read_attachment read_row check_integrity
read_attachment-kept g sha256 id p f row first path size hash kept =
    rw (first, path, kept, size, hash) (rw (==_refl (length p), ==_refl (sha256 p)) refl)

-- What an upload and a download have done. `message` is the message whose row the attachment has.
pub record IsDelivered (g : Gcm) (sha256 : Text → Opaque) (d : Draw) (p : Text) (m : Manifest)
    (message : Opaque) (up : Option Manifest × Db × Files) (down : Option Text × Db × Files)
    : Type 0 where
  pub manifest : up.0 ≡ some m
  pub text : down.0 ≡ some p
  pub sender_copy : read_local g d.attachment_id up.2 ≡ some p
  pub readable : read_attachment g sha256 d.attachment_id down.2 ≡ some p
  pub no_blob : any (λ b. b.blob_id == d.blob_id) down.1.blobs ≡ false

module _ (g : Gcm) (laws : IsGcm g) (sha256 : Text → Opaque) (device : Uuid) (d : Draw)
    (p filename mime : Text) (db : Db) (id : length d.attachment_id ≡ 16)
    (short : (i : ℕ) → length (d.nonce i) ≡ 12) (named : 1 ≤ length (sanitize_filename filename))
    (typed : length mime ≤ 255) (small : length p ≤ 26214400)
    (fresh : any (λ b. b.blob_id == d.blob_id) db.blobs ≡ false) where
  abbrev sent : Bool × Db
  sent = upload_chunks g device d p (announced device d p db)

  sent-HasChunks :
      HasChunks g laws d short p d.blob_id 0 (chunk_count (length p)) (announced device d p db) sent
  unfolding upload_chunks
  sent-HasChunks =
      put_all-HasChunks g laws d short p device d.blob_id (blob_row device d p) 0
        (chunk_count (length p)) (announced device d p db) (find-announced device d p db fresh) refl
        (omega arith)

  upload_attachment-sent :
      (f : Files)
      → upload_attachment g sha256 device d p filename mime db f ≡ (
        some (manifest_of sha256 d p filename mime),
        sent.1,
        cache_attachment g d.local_nonce d.attachment_id p f,
      )
  unfolding upload_attachment is_uploaded
  upload_attachment-sent f = rw (upload-announced device d p db small fresh) (
      finish_upload-accepted g d p (manifest_of sha256 d p filename mime) sent f
        sent-HasChunks.accepted)

  fetched :
      fetch_from g (manifest_of sha256 d p filename mime) sent.1 0 (chunk_count (length p)) ≡ some p
  fetched =
      fetch_all g laws sha256 d p filename mime sent.1
        (λ j h. ground (arith, sent-HasChunks.chunks j))

  download_attachment-sent :
      (nonce : Text) (message : Opaque) (f : Files)
      → any (is_attached d.attachment_id message) f.attached ≡ true
      → download_attachment g sha256 nonce (manifest_of sha256 d p filename mime) message sent.1 f
        ≡ (
          some p,
          (delete_blob d.blob_id sent.1).1,
          record_download
              (manifest_of sha256 d p filename mime)
              message
              (cache_attachment g nonce d.attachment_id p f),
        )
  unfolding download_attachment
  download_attachment-sent nonce message f there =
      let m = manifest_of sha256 d p filename mime in
      let whole : fetch_from g m sent.1 0 m.chunk_count ≡ some p = unfold manifest_of in fetched in
      let accepted : finish_download g sha256 nonce m message (some p) sent.1 f ≡ (
        some p,
        (delete_blob d.blob_id sent.1).1,
        record_download m message (cache_attachment g nonce d.attachment_id p f),
      ) =
        unfold manifest_of in
        finish_download-accepted g sha256 nonce m message p sent.1 f refl refl there in
      rw (is_manifest-manifest_of g laws sha256 d p filename mime id short named typed small)
        (rw whole accepted)

  -- The recipient's vault after a download.
  abbrev kept : Text → Opaque → Files → Files
  kept nonce message f =
      record_download (manifest_of sha256 d p filename mime) message
        (cache_attachment g nonce d.attachment_id p f)

  kept-readable :
      (nonce : Text) (message : Opaque) (f : Files)
      → IsRecorded sha256 d.attachment_id message p f
      → read_attachment g sha256 d.attachment_id (kept nonce message f) ≡ some p
  kept-readable nonce message f h =
      let m = manifest_of sha256 d p filename mime in
      let first : find (is_row d.attachment_id) (kept nonce message f).attached
          ≡ some (record h.row { has_path = true }) =
        unfold record_download manifest_of cache_attachment in
        update-row d.attachment_id message f.attached h.row h.first h.linked in
      read_attachment-kept g sha256 d.attachment_id p (kept nonce message f)
        (record h.row { has_path = true }) first refl h.size h.hash
        (read_local-record_download g d.attachment_id m message
            (cache_attachment g nonce d.attachment_id p f)
          ∙ read_local-cache_attachment g laws nonce d.attachment_id p f)

  IsRecorded-any :
      (message : Opaque) (f : Files)
      → IsRecorded sha256 d.attachment_id message p f
      → any (is_attached d.attachment_id message) f.attached ≡ true
  unfolding is_row is_attached
  IsRecorded-any message f h =
      let mine = find-holds (is_row d.attachment_id) f.attached h.row h.first in
      let linked : (h.row.message_id == message) ≡ true = rw h.linked (==_refl message) in
      any_of_found (is_row d.attachment_id) (is_attached d.attachment_id message) f.attached h.row
        h.first (rw (mine, linked) refl)

  -- An attachment of up to 25 MiB, uploaded under a new blob id, a name that is not empty and a MIME
  -- type of at most 255 characters, is downloaded by whoever has its manifest and the row of its
  -- message, with its size and digest: the very same bytes, whatever their number. The sender keeps a
  -- copy that decrypts to them, the recipient can read the attachment from then on, and the relay
  -- keeps no blob.
  pub upload_attachment-IsDelivered :
      (nonce : Text) (message : Opaque) (f f' : Files)
      → IsRecorded sha256 d.attachment_id message p f'
      → IsDelivered g sha256 d p
          (manifest_of sha256 d p filename mime)
          message
          (upload_attachment g sha256 device d p filename mime db f)
          (download_attachment g sha256 nonce
            (manifest_of sha256 d p filename mime)
            message
            (upload_attachment g sha256 device d p filename mime db f).1
            f')
  upload_attachment-IsDelivered nonce message f f' there = rw (upload_attachment-sent f) (
      rw (download_attachment-sent nonce message f' (IsRecorded-any message f' there)) (record {
        manifest = refl;
        text = refl;
        sender_copy = read_local-cache_attachment g laws d.local_nonce d.attachment_id p f;
        readable = kept-readable nonce message f' there;
        no_blob = delete_blob-gone d.blob_id sent.1;
      }))
