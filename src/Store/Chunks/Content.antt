-- ===== src/Store/Chunks/Content.antt =====
-- internal/server/store.go: chunks are named by their content, and a verified manifest describes the
-- content of its chunks.
use xcloud.Prelude.{
  ℕ, ◌+◌, String, ◌≡◌, refl, sym, ap, ◌∙◌, true, List, [], ◌∷◌, ◌++◌, some, pos, arith, eq_iff,
  length, get, get-put,
}
use xcloud.Model.{ChunkRef, Manifest}
use xcloud.Result.{Result, ok, err}
use xcloud.Store.World.{Env, World}
use xcloud.Store.Chunks.{
  is_hash, has_chunk, has_account_chunk, read_chunk, followed_by, read_chunks, put_chunk,
  check_total, verify_empty, verify_chunks, verify_manifest,
}

-- Every chunk file holds bytes with the hash that it is named by.
pub record IsContentAddressed (env : Env) (w : World) : Type 0 where
  pub named :
      (hash : String) (bytes : List ℕ)
      → get hash w.chunk_files ≡ some bytes
      → env.sha256_hex bytes ≡ hash

-- PutChunk, failing or not, keeps every chunk file named by the hash of its bytes.
pub put_chunk-IsContentAddressed :
    (env : Env) (hash : String) (bytes : List ℕ) (w : World)
    → IsContentAddressed env w
    → IsContentAddressed env (put_chunk env hash bytes w).1
unfolding put_chunk
put_chunk-IsContentAddressed env hash bytes w h = record {
  named = λ k b e. ground (
    arith,
    h.named k b,
    get-put hash k bytes w.chunk_files,
    eq_iff hash k,
    eq_iff (env.sha256_hex bytes) hash,
  );
}

-- The chunks from the i-th on are numbered, granted to the account, readable and of their stated
-- sizes, and their bytes together are `bytes`.
abbrev pub Describes : Env → String → World → ℕ → List ChunkRef → List ℕ → Type 0
Describes env account_id w i [] bytes = bytes ≡ []
Describes env account_id w i (chunk ∷ chunks) bytes =
    (first : List ℕ) × (rest : List ℕ) × (bytes ≡ first ++ rest)
    × (chunk.index ≡ pos i)
    × (has_account_chunk account_id chunk.hash w ≡ true)
    × (get chunk.hash w.chunk_files ≡ some first)
    × (env.chunk_readable chunk.hash ≡ true)
    × (chunk.size ≡ pos (length first))
    × Describes env account_id w (i + 1) chunks rest

read_chunk_good :
    (env : Env) (account_id : String) (w : World) (i : ℕ) (chunk : ChunkRef) (bytes : List ℕ)
    → read_chunk env account_id w i chunk ≡ ok bytes
    → (chunk.index ≡ pos i)
      × (has_account_chunk account_id chunk.hash w ≡ true)
      × (get chunk.hash w.chunk_files ≡ some bytes)
      × (env.chunk_readable chunk.hash ≡ true)
      × (chunk.size ≡ pos (length bytes))
unfolding read_chunk
read_chunk_good env account_id w i chunk bytes h = ground arith

valid_of_granted :
    (account_id hash : String) (w : World)
    → has_account_chunk account_id hash w ≡ true
    → is_hash hash ≡ true
unfolding has_account_chunk has_chunk
valid_of_granted account_id hash w h = ground arith

followed_by_ok :
    (first rest : Result (List ℕ)) (bytes : List ℕ)
    → followed_by first rest ≡ ok bytes
    → (a : List ℕ) × (b : List ℕ) × (first ≡ ok a) × (rest ≡ ok b) × (bytes ≡ a ++ b)
followed_by_ok (ok a) (ok b) bytes h = (a, b, refl, refl, cc)
followed_by_ok (ok a) (err e) bytes h = cc
followed_by_ok (err e) rest bytes h = cc

read_chunks-Describes :
    (env : Env) (account_id : String) (w : World) (i : ℕ) (chunks : List ChunkRef) (bytes : List ℕ)
    → read_chunks env account_id w i chunks ≡ ok bytes
    → Describes env account_id w i chunks bytes
unfolding read_chunks
read_chunks-Describes env account_id w i [] bytes h = ground arith
read_chunks-Describes env account_id w i (chunk ∷ chunks) bytes h =
    let (a, b, p, q, e) =
      followed_by_ok (read_chunk env account_id w i chunk)
        (read_chunks env account_id w (i + 1) chunks) bytes h in
    let (index, granted, stored, readable, size) = read_chunk_good env account_id w i chunk a p in
    (
      a,
      b,
      e,
      index,
      granted,
      stored,
      readable,
      size,
      read_chunks-Describes env account_id w (i + 1) chunks b q,
    )

read_chunk_of_good :
    (env : Env) (account_id : String) (w : World) (i : ℕ) (chunk : ChunkRef) (bytes : List ℕ)
    → chunk.index ≡ pos i
    → has_account_chunk account_id chunk.hash w ≡ true
    → get chunk.hash w.chunk_files ≡ some bytes
    → env.chunk_readable chunk.hash ≡ true
    → chunk.size ≡ pos (length bytes)
    → read_chunk env account_id w i chunk ≡ ok bytes
unfolding read_chunk
read_chunk_of_good env account_id w i chunk bytes index granted stored readable size =
    ground (arith, valid_of_granted account_id chunk.hash w granted)

read_chunks_of_Describes :
    (env : Env) (account_id : String) (w : World) (i : ℕ) (chunks : List ChunkRef) (bytes : List ℕ)
    → Describes env account_id w i chunks bytes
    → read_chunks env account_id w i chunks ≡ ok bytes
unfolding read_chunks
read_chunks_of_Describes env account_id w i [] bytes h = ap ok (sym h)
read_chunks_of_Describes env account_id w i (chunk ∷ chunks) bytes
      (a, b, e, index, granted, stored, readable, size, more) =
    rw (read_chunk_of_good env account_id w i chunk a index granted stored readable size)
      (rw (read_chunks_of_Describes env account_id w (i + 1) chunks b more) (ap ok (sym e)))

-- What a manifest has to satisfy, independently of the order in which it is tested.
pub record IsVerified (env : Env) (account_id : String) (manifest : Manifest) (w : World)
    (bytes : List ℕ) : Type 0 where
  pub described : Describes env account_id w 0 manifest.chunks bytes
  pub sized : manifest.size ≡ pos (length bytes)
  pub hashed : manifest.hash ≡ env.sha256_hex bytes

check_total_good :
    (env : Env) (manifest : Manifest) (bytes : List ℕ) (w : World)
    → manifest.size ≡ pos (length bytes)
    → manifest.hash ≡ env.sha256_hex bytes
    → (check_total env manifest (ok bytes) w).0 ≡ ok tt
unfolding check_total
check_total_good env manifest bytes w size hash =
    ground (arith, eq_iff (env.sha256_hex bytes) manifest.hash)

check_total_sound :
    (env : Env) (manifest : Manifest) (r : Result (List ℕ)) (w : World)
    → (check_total env manifest r w).0 ≡ ok tt
    → (bytes : List ℕ) × (r ≡ ok bytes)
      × (manifest.size ≡ pos (length bytes))
      × (manifest.hash ≡ env.sha256_hex bytes)
unfolding check_total
check_total_sound env manifest (err e) w h = cc
check_total_sound env manifest (ok bytes) w h =
    (bytes, refl, ground arith, ground (arith, eq_iff (env.sha256_hex bytes) manifest.hash))

module _ (env : Env) (account_id : String) (manifest : Manifest) (w : World) where
  verify_chunks_sound :
      (chunks : List ChunkRef)
      → (verify_chunks env account_id manifest chunks w).0 ≡ ok tt
      → (bytes : List ℕ) × Describes env account_id w 0 chunks bytes
        × (manifest.size ≡ pos (length bytes))
        × (manifest.hash ≡ env.sha256_hex bytes)
  unfolding verify_chunks verify_empty
  verify_chunks_sound [] h =
      ([], refl, ground arith, ground (arith, eq_iff manifest.hash (env.sha256_hex [])))
  verify_chunks_sound (chunk ∷ chunks) h =
      let (bytes, e, size, hash) =
        check_total_sound env manifest (read_chunks env account_id w 0 (chunk ∷ chunks)) w h in
      (bytes, read_chunks-Describes env account_id w 0 (chunk ∷ chunks) bytes e, size, hash)

  verify_chunks_complete :
      (chunks : List ChunkRef) (bytes : List ℕ)
      → Describes env account_id w 0 chunks bytes
      → manifest.size ≡ pos (length bytes)
      → manifest.hash ≡ env.sha256_hex bytes
      → (verify_chunks env account_id manifest chunks w).0 ≡ ok tt
  unfolding verify_chunks verify_empty
  verify_chunks_complete [] bytes d size hash =
      let empty : length bytes ≡ 0 = ap length d in
      let hash' : manifest.hash ≡ env.sha256_hex [] = hash ∙ ap env.sha256_hex d in
      ground (arith, eq_iff manifest.hash (env.sha256_hex []))
  verify_chunks_complete (chunk ∷ chunks) bytes d size hash =
      rw (read_chunks_of_Describes env account_id w 0 (chunk ∷ chunks) bytes d)
        (check_total_good env manifest bytes w size hash)

  -- A manifest that verifyManifest accepts describes chunks that are stored, can be read, are granted
  -- to the account, stand in the order of their indexes from 0 and have the sizes stated for each,
  -- and whose bytes, put together, have the size and the hash of the manifest.
  pub verify_manifest_sound :
      (verify_manifest env account_id manifest w).0 ≡ ok tt
      → (bytes : List ℕ) × IsVerified env account_id manifest w bytes
  unfolding verify_manifest
  verify_manifest_sound h =
      let (bytes, d, size, hash) = verify_chunks_sound manifest.chunks h in
      (bytes, record { described = d; sized = size; hashed = hash })

  -- A manifest of chunks that are stored, can be read, are granted to the account, are numbered from
  -- 0, each of the size stated for it, and together of the manifest's size and hash is accepted.
  pub verify_manifest_complete :
      (bytes : List ℕ)
      → IsVerified env account_id manifest w bytes
      → (verify_manifest env account_id manifest w).0 ≡ ok tt
  unfolding verify_manifest
  verify_manifest_complete bytes v =
      verify_chunks_complete manifest.chunks bytes v.described v.sized v.hashed
