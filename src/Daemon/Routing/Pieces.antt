-- ===== src/Daemon/Routing/Pieces.antt =====
-- apps/local-daemon/src/tor-routing.ts: the job that fetches the chunks of a blob from its peer, or in
-- hybrid mode from the relay. The text of the last transfer error is left out.
use crypto_pigeon.Prelude.{
  ℕ, zero, suc, Bool, false, not, ◌&&◌, ◌||◌, Option, none, some, List, [], ◌∷◌, ◌++◌, Text, length,
  delete, is_some, ◌==◌, leb, if◌then◌else◌,
}
use crypto_pigeon.Relay.Db.{Opaque}
use crypto_pigeon.Daemon.Files.Fetching.{nth, is_nonce}
use crypto_pigeon.Daemon.Onion.{is_part}
use crypto_pigeon.Daemon.Routing.{is_hybrid, Routing}

-- The fields of the manifest that the job reads.
pub record BlobJob : Type 0 where
  pub blob_id : Opaque
  pub chunk_count : ℕ
  pub chunk_nonces : List Text

-- What the world answers for the chunk of an index: the nonce and the ciphertext of an answer that is
-- ok, and whether the vault's session is still the one that the job began in.
pub record Network : Type 0 where
  pub peer_gives : ℕ → Option (Text × Text)
  pub is_same_before : ℕ → Bool
  pub relay_gives : ℕ → Option (Text × Text)
  pub is_same_after : ℕ → Bool

-- Whether the job prepares, and then sends, a request to the relay for a chunk.
unfoldable pub asks_for_chunk : Network → ℕ → Routing → Bool
unfolding is_hybrid
asks_for_chunk w i s =
    not (is_some (w.peer_gives i))
    && is_hybrid s.mode
    && s.can_prepare_download
    && w.is_same_before i

unfoldable pub chunk_answer : Network → ℕ → Routing → Option (Text × Text)
unfolding asks_for_chunk
chunk_answer w i s = if asks_for_chunk w i s then w.relay_gives i else w.peer_gives i

-- `INSERT OR REPLACE INTO tor_download_chunks`
unfoldable pub replace_part : Opaque → ℕ → Text × Text → Routing → Routing
unfolding is_part
replace_part blob i (nonce, ciphertext) s = record s {
  cached =
      delete (is_part blob i) s.cached
      ++ record { blob_id = blob; chunk_index = i; nonce = nonce; ciphertext = ciphertext } ∷ [];
}

-- One pass of the loop after its answer; `none` is an exception, which ends the job.
unfoldable pub keep_chunk : Network → BlobJob → ℕ → Option (Text × Text) → Routing → Option Routing
unfolding is_nonce nth replace_part
keep_chunk w j i none s = none
keep_chunk w j i (some (nonce, ciphertext)) s =
    if is_nonce (nth i j.chunk_nonces) nonce && leb (length ciphertext) 65552 && w.is_same_after i
    then some (replace_part j.blob_id i (nonce, ciphertext) s)
    else none

-- The loop, with `n` chunks left from `i` on; it also says whether the relay was asked.
unfoldable pub fetch_chunks : Network → BlobJob → ℕ → ℕ → Routing → Bool × Routing
unfolding asks_for_chunk chunk_answer keep_chunk
fetch_chunks w j zero i s = (false, s)
fetch_chunks w j (suc n) i s = elim (keep_chunk w j i (chunk_answer w i s) s) [
  | none ↦ (asks_for_chunk w i s, s)
  | some s' ↦
      let (later, last) = fetch_chunks w j n (suc i) s' in (asks_for_chunk w i s || later, last)
]

-- The function that the job's timer calls.
unfoldable pub fetch_blob : Network → BlobJob → Routing → Bool × Routing
unfolding fetch_chunks
fetch_blob w j s =
    let (asked, last) = fetch_chunks w j j.chunk_count 0 s in
    (asked, record last { blob_jobs = delete (λ b. b == j.blob_id) last.blob_jobs })
