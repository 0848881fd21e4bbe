-- ===== src/Daemon/Files/Fetching.antt =====
-- apps/local-daemon/src/attachments.ts, downloadAndDecryptAttachment.
use crypto_pigeon.Prelude.{
  ℕ, zero, suc, ◌-◌, Bool, true, false, not, ◌&&◌, Option, none, some, List, [], ◌∷◌, ◌++◌, Text,
  text_eq, length, take, drop, any, update, delete, ◌==◌, if◌then◌else◌, ◌>>=◌,
}
use crypto_pigeon.Relay.Db.{Opaque, Chunk, Db}
use crypto_pigeon.Relay.Attachments.{get_chunk, delete_blob}
use crypto_pigeon.Daemon.Files.{
  Attached, Files, Gcm, Manifest, cache_attachment, is_manifest, make_aad,
}

unfoldable pub nth : ℕ → List Text → Option Text
nth i [] = none
nth zero (t ∷ ts) = some t
nth (suc i) (t ∷ ts) = nth i ts

unfoldable pub is_nonce : Option Text → Text → Bool
is_nonce none nonce = false
is_nonce (some expected) nonce = text_eq expected nonce

-- `slice(0, -16)` and `slice(-16)`
unfoldable pub body_of : Text → Text
body_of full = take (length full - 16) full

unfoldable pub tag_of : Text → Text
tag_of full = drop (length full - 16) full

unfoldable pub decrypt_chunk : Gcm → Manifest → ℕ → Chunk → Option Text
unfolding is_nonce nth body_of tag_of make_aad
decrypt_chunk g m i c =
    if is_nonce (nth i m.chunk_nonces) c.nonce
    then g.unseal m.attachment_key c.nonce (make_aad m.attachment_id i m.chunk_count)
        (tag_of c.ciphertext) (body_of c.ciphertext)
    else none

-- The loop that downloads `n` chunks from `i` on.
unfoldable pub fetch_from : Gcm → Manifest → Db → ℕ → ℕ → Option Text
unfolding decrypt_chunk
fetch_from g m db i zero = some []
fetch_from g m db i (suc n) = do
  c ← get_chunk m.blob_id i db
  p ← decrypt_chunk g m i c
  rest ← fetch_from g m db (suc i) n
  some (p ++ rest)

unfoldable pub is_attached : Text → Opaque → Attached → Bool
is_attached id message a = text_eq a.attachment_id id && a.message_id == message

unfoldable pub record_download : Manifest → Opaque → Files → Files
unfolding is_attached
record_download m message f = record f {
  attached =
      update (is_attached m.attachment_id message) (λ a. record a { has_path = true }) f.attached;
  downloads = delete (λ id. text_eq id m.attachment_id) f.downloads;
}

-- From the digest on.
unfoldable pub finish_download :
    Gcm
    → (Text → Opaque)
    → Text
    → Manifest
    → Opaque
    → Option Text
    → Db
    → Files
    → Option Text × Db × Files
unfolding cache_attachment is_attached record_download
finish_download g sha256 nonce m message none db f = (none, db, f)
finish_download g sha256 nonce m message (some p) db f =
    if not (m.full_file_digest == sha256 p)
    then (none, db, f)
    else if not (length p == m.total_plaintext_size)
    then (none, db, f)
    else (let f' = cache_attachment g nonce m.attachment_id p f in
        if not (any (is_attached m.attachment_id message) f'.attached)
        then (none, db, f')
        else (some p, (delete_blob m.blob_id db).1, record_download m message f'))

-- downloadAndDecryptAttachment; `nonce` is the one of the local copy, `none` where it throws.
unfoldable pub download_attachment :
    Gcm → (Text → Opaque) → Text → Manifest → Opaque → Db → Files → Option Text × Db × Files
download_attachment g sha256 nonce m message db f =
    if is_manifest m
    then finish_download g sha256 nonce m message (fetch_from g m db 0 m.chunk_count) db f
    else (none, db, f)
