-- ===== src/Store/Chunks.antt =====
-- internal/server/store.go: the chunk store, the accounts' rights to chunks, and verifyManifest.
pub mod Content
mod Tests
use Prim.Native.Char.{Char, code}
use Prim.Native.String.{len, slice}
use xcloud.Prelude.{
  ℕ, ◌+◌, String, Bool, true, false, not, ◌&&◌, ◌||◌, List, [], ◌∷◌, ◌++◌, Option, none, some, ℤ,
  pos, if◌then◌else◌, ◌==◌, leb, eqb, eqb_ℤ, ◌<>◌, all_chars, keep, length, Dict, get, put,
}
use xcloud.Model.{ChunkRef, Manifest, ServerState}
use xcloud.Result.{
  Result, ok, err, chunk_not_written, chunk_not_read, invalid_chunk_hash, chunk_hash_mismatch,
  missing_chunk, chunk_not_available, empty_list_with_size, empty_hash_mismatch,
  chunk_index_mismatch, chunk_size_mismatch, file_size_mismatch, file_hash_mismatch,
}
use xcloud.Store.World.{Env, World, Exec, pure, raise, refuse_if, modify, save, ◌>>=◌, ◌>>◌, resume}
use xcloud.Store.Keys.{account_chunk_key}

abbrev is_hash_char : ℕ → Bool
is_hash_char c = (leb b'0' c && leb c b'9') || (leb b'a' c && leb c b'f')

-- isHash: 64 bytes, each a lower-case hexadecimal digit
unfoldable pub is_hash : String → Bool
unfolding all_chars
is_hash v = eqb (len v) 64 && all_chars is_hash_char v

-- ChunkPath
unfoldable pub chunk_path : String → String → Result String
unfolding is_hash ◌<>◌
chunk_path root hash =
    if is_hash hash
    then ok (root <> "/chunks/" <> slice hash 0 2 <> "/" <> slice hash 2 4 <> "/" <> hash)
    else err invalid_chunk_hash

abbrev is_some {ℓ} : {A : Type ℓ} → Option A → Bool
is_some none = false
is_some (some a) = true

-- HasChunk. The file of a chunk is found by its hash, which is the last segment of its path.
unfoldable pub has_chunk : String → World → Bool
has_chunk hash w = is_hash hash && is_some (get hash w.chunk_files)

abbrev pub is_true : Option Bool → Bool
is_true none = false
is_true (some b) = b

-- s.state.AccountChunks[accountChunkKey(accountID, hash)]
abbrev pub is_granted : String → String → ServerState → Bool
is_granted account_id hash s = is_true (get (account_chunk_key account_id hash) s.account_chunks)

-- HasAccountChunk
unfoldable pub has_account_chunk : String → String → World → Bool
has_account_chunk account_id hash w = has_chunk hash w && is_granted account_id hash w.state

-- CheckChunks
unfoldable pub check_chunks : String → List String → World → List String
check_chunks account_id chunks w = keep (λ hash. not (has_account_chunk account_id hash w)) chunks

abbrev pub grant : String → String → ServerState → ServerState
grant account_id hash s = record s {
  account_chunks = put (account_chunk_key account_id hash) true s.account_chunks;
}

-- The bytes of a chunk before those of the chunks behind it, which are read only if it is good.
abbrev pub followed_by : Result (List ℕ) → Result (List ℕ) → Result (List ℕ)
followed_by (err e) rest = err e
followed_by (ok bytes) (err e) = err e
followed_by (ok bytes) (ok rest) = ok (bytes ++ rest)

module _ (env : Env) where
  -- The rest of the loop of verifyManifest, at what stands in the chunk's file: the errors of os.Open,
  -- io.Copy and Close, and the test of the size.
  unfoldable pub sized : ChunkRef → Option (List ℕ) → Result (List ℕ)
  sized chunk none = err missing_chunk
  sized chunk (some bytes) =
      if not (env.chunk_readable chunk.hash)
      then err chunk_not_read
      else if eqb_ℤ (pos (length bytes)) chunk.size
      then ok bytes
      else err chunk_size_mismatch

  -- One round of the loop of verifyManifest: the bytes that `io.Copy(h, f)` writes to the hash.
  unfoldable pub read_chunk : String → World → ℕ → ChunkRef → Result (List ℕ)
  unfolding sized
  read_chunk account_id w i chunk =
      if not (eqb_ℤ chunk.index (pos i))
      then err chunk_index_mismatch
      else if not (is_hash chunk.hash)
      then err invalid_chunk_hash
      else if not (has_account_chunk account_id chunk.hash w)
      then err chunk_not_available
      else sized chunk (get chunk.hash w.chunk_files)

  -- The loop of verifyManifest: all that it writes to the hash.
  unfoldable pub read_chunks : String → World → ℕ → List ChunkRef → Result (List ℕ)
  unfolding read_chunk
  read_chunks account_id w i [] = ok []
  read_chunks account_id w i (chunk ∷ chunks) =
      followed_by (read_chunk account_id w i chunk) (read_chunks account_id w (i + 1) chunks)

  -- PutChunk
  unfoldable pub put_chunk : String → List ℕ → Exec (Unit {0})
  put_chunk hash bytes w =
      if not (env.sha256_hex bytes == hash)
      then (err chunk_hash_mismatch, w)
      else if not (is_hash hash)
      then (err invalid_chunk_hash, w)
      else if has_chunk hash w
      then (ok tt, w)
      else if env.chunk_writable hash
      then (ok tt, record w { chunk_files = put hash bytes w.chunk_files })
      else (err chunk_not_written, w)

  -- GrantAccountChunk
  unfoldable pub grant_account_chunk : String → String → Exec (Unit {0})
  grant_account_chunk account_id hash w =
      (do
        refuse_if (not (has_chunk hash w)) missing_chunk
        modify (grant account_id hash)
        save env)
        w

  -- The end of verifyManifest, behind the loop.
  unfoldable pub check_total : Manifest → Result (List ℕ) → Exec (Unit {0})
  check_total manifest (err e) = raise e
  check_total manifest (ok bytes) =
      if not (eqb_ℤ (pos (length bytes)) manifest.size)
      then raise file_size_mismatch
      else if not (env.sha256_hex bytes == manifest.hash)
      then raise file_hash_mismatch
      else pure tt

  -- verifyManifest without chunks: the hash of the empty file is granted, and nothing is saved.
  unfoldable pub verify_empty : String → Manifest → Exec (Unit {0})
  verify_empty account_id manifest =
      if not (eqb_ℤ manifest.size (pos 0))
      then raise empty_list_with_size
      else if not (manifest.hash == env.sha256_hex [])
      then raise empty_hash_mismatch
      else modify (grant account_id manifest.hash)

  unfoldable pub verify_chunks : String → Manifest → List ChunkRef → Exec (Unit {0})
  verify_chunks account_id manifest [] w = verify_empty account_id manifest w
  verify_chunks account_id manifest (chunk ∷ chunks) w =
      check_total manifest (read_chunks account_id w 0 (chunk ∷ chunks)) w

  -- verifyManifest
  unfoldable pub verify_manifest : String → Manifest → Exec (Unit {0})
  verify_manifest account_id manifest = verify_chunks account_id manifest manifest.chunks
