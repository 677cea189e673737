-- ===== src/Store/Chunks/Tests.antt =====
-- The theorems about chunks at one chunk of three bytes.
use xcloud.Prelude.{ℕ, List, [], ◌∷◌, ◌≡◌, refl, true, pos, get}
use xcloud.Model.{Manifest}
use xcloud.Result.{ok}
use xcloud.Store.World.{World}
use xcloud.Store.Chunks.{
  is_hash, has_account_chunk, has_chunk, put_chunk, read_chunks, check_total, verify_chunks,
  verify_manifest,
}
use xcloud.Store.Chunks.Content.{
  IsContentAddressed, put_chunk-IsContentAddressed, IsVerified, verify_manifest_sound,
  verify_manifest_complete,
}
use xcloud.Store.Keys.{account_chunk_key}
use xcloud.Store.Samples.{ones, sample_env, sample_manifest, empty_state, world_of}

abbrev three_bytes : List ℕ
three_bytes = 7 ∷ 8 ∷ 9 ∷ []

abbrev chunk_world : World
chunk_world =
    record (world_of (record empty_state {
      account_chunks =
          ("u\01111111111111111111111111111111111111111111111111111111111111111", true) ∷ [];
    })) { chunk_files = (ones, three_bytes) ∷ [] }

abbrev chunk_manifest : Manifest
chunk_manifest = record sample_manifest {
  size = pos 3;
  hash = ones;
  chunks = record { index = pos 0; hash = ones; size = pos 3 } ∷ [];
}

no_chunks : IsContentAddressed sample_env (world_of empty_state)
unfolding get
no_chunks = record { named = λ hash bytes e. cc }

put_chunk-IsContentAddressed_example :
    IsContentAddressed sample_env (put_chunk sample_env ones three_bytes (world_of empty_state)).1
put_chunk-IsContentAddressed_example =
    put_chunk-IsContentAddressed sample_env ones three_bytes (world_of empty_state) no_chunks

chunk_manifest_accepted : (verify_manifest sample_env "u" chunk_manifest chunk_world).0 ≡ ok tt
unfolding verify_manifest verify_chunks check_total read_chunks has_account_chunk has_chunk is_hash
    get account_chunk_key
chunk_manifest_accepted = refl

chunk_manifest-IsVerified : IsVerified sample_env "u" chunk_manifest chunk_world three_bytes
unfolding has_account_chunk has_chunk is_hash get account_chunk_key
chunk_manifest-IsVerified = record {
  described = (three_bytes, [], refl, refl, refl, refl, refl, refl, refl);
  sized = refl;
  hashed = refl;
}

verify_manifest_sound_example :
    (bytes : List ℕ) × IsVerified sample_env "u" chunk_manifest chunk_world bytes
verify_manifest_sound_example =
    verify_manifest_sound sample_env "u" chunk_manifest chunk_world chunk_manifest_accepted

verify_manifest_complete_example :
    (verify_manifest sample_env "u" chunk_manifest chunk_world).0 ≡ ok tt
verify_manifest_complete_example =
    verify_manifest_complete sample_env "u" chunk_manifest chunk_world three_bytes
      chunk_manifest-IsVerified
