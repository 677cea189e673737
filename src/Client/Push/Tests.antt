-- ===== src/Client/Push/Tests.antt =====
-- The theorem about scanned files at one chunk of three bytes.
use xcloud.Prelude.{[], ◌∷◌, ◌≡◌, refl, true, pos, arith, All, get}
use xcloud.Model.{Manifest}
use xcloud.Result.{ok}
use xcloud.Fileutil.Chunked.{file_chunks, hash_file}
use xcloud.Store.World.{World}
use xcloud.Store.Keys.{account_chunk_key}
use xcloud.Store.Chunks.{has_account_chunk, has_chunk, is_hash, verify_manifest}
use xcloud.Store.Chunks.Content.{IsVerified}
use xcloud.Store.Samples.{ones, sample_env, empty_state, world_of}
use xcloud.Client.Samples.{sample_engine, known_file}
use xcloud.Client.Push.{file_entry, request_of}
use xcloud.Client.Push.Verified.{Stored, scanned_file_verifies}

abbrev granted_world : World
granted_world =
    record (world_of (record empty_state {
      account_chunks =
          ("u\01111111111111111111111111111111111111111111111111111111111111111", true) ∷ [];
    })) { chunk_files = (ones, 7 ∷ 8 ∷ 9 ∷ []) ∷ [] }

parts-Stored :
    All
      (Stored sample_env "u" granted_world)
      (file_chunks sample_engine.chunk_size (7 ∷ 8 ∷ 9 ∷ []))
unfolding file_chunks has_account_chunk has_chunk is_hash get account_chunk_key
parts-Stored = ((refl, refl, refl), tt)

abbrev scanned_manifest : Manifest
scanned_manifest =
    (request_of sample_engine
      (file_entry "a.txt" (pos 9)
        (hash_file sample_engine.sha256_hex sample_engine.chunk_size (7 ∷ 8 ∷ 9 ∷ [])))
      known_file "op").manifest

scanned_file_verifies_example :
    IsVerified sample_env "u" scanned_manifest granted_world (7 ∷ 8 ∷ 9 ∷ [])
    × ((verify_manifest sample_env "u" scanned_manifest granted_world).0 ≡ ok tt)
scanned_file_verifies_example =
    scanned_file_verifies sample_engine sample_env "u" "a.txt" "op" (pos 9) (7 ∷ 8 ∷ 9 ∷ [])
      known_file granted_world refl (omega arith) parts-Stored
