-- ===== src/Client/Push/Verified.antt =====
-- internal/client/sync.go and internal/server/store.go: the manifest that uploadFile commits is one
-- that verifyManifest accepts.
use xcloud.Prelude.{
  ℕ, zero, suc, ◌+◌, ◌≤◌, ◌<◌, String, ◌≡◌, refl, ap, true, List, [], ◌∷◌, ◌++◌, some, ℤ, pos,
  arith, length, take, drop, length-drop, get, All, subst,
}
use xcloud.Model.{LocalFileState, Manifest}
use xcloud.Result.{ok}
use xcloud.Fileutil.Chunked.{read_parts, concat, file_chunks, refs_of, hash_file}
use xcloud.Store.World.{Env, World}
use xcloud.Store.Chunks.{has_account_chunk, verify_manifest}
use xcloud.Store.Chunks.Content.{Describes, IsVerified, verify_manifest_complete}
use xcloud.Client.Local.{Engine}
use xcloud.Client.Push.{file_entry, request_of}

take-drop {ℓ} : {A : Type ℓ} (n : ℕ) (xs : List A) → take n xs ++ drop n xs ≡ xs
take-drop zero xs = refl
take-drop (suc n) [] = refl
take-drop (suc n) (x ∷ xs) = ap (λ ys. x ∷ ys) (take-drop n xs)

concat-read_parts :
    (n size : ℕ) (bytes : List ℕ)
    → 0 < size
    → length bytes ≤ n
    → concat (read_parts n size bytes) ≡ bytes
unfolding concat read_parts
concat-read_parts zero size [] positive enough = refl
concat-read_parts zero size (b ∷ bytes) positive enough = absurd (omega arith)
concat-read_parts (suc n) size [] positive enough = refl
concat-read_parts (suc n) size (b ∷ bytes) positive enough =
    let fewer = length-drop size (b ∷ bytes) in
    let rest = concat-read_parts n size (drop size (b ∷ bytes)) positive (omega arith) in
    rw rest (take-drop size (b ∷ bytes))

-- The parts together are the file.
concat-file_chunks :
    (size : ℕ) (bytes : List ℕ) → 0 < size → concat (file_chunks size bytes) ≡ bytes
unfolding file_chunks
concat-file_chunks size bytes positive =
    concat-read_parts (length bytes) size bytes positive (omega arith)

-- A part that is stored under its hash, for the account, in a file that can be read.
abbrev pub Stored : Env → String → World → List ℕ → Type 0
Stored env account_id w part =
    (has_account_chunk account_id (env.sha256_hex part) w ≡ true)
    × (get (env.sha256_hex part) w.chunk_files ≡ some part)
    × (env.chunk_readable (env.sha256_hex part) ≡ true)

refs_of-Describes :
    (env : Env) (account_id : String) (w : World) (i : ℕ) (parts : List (List ℕ))
    → All (Stored env account_id w) parts
    → Describes env account_id w i (refs_of env.sha256_hex i parts) (concat parts)
unfolding refs_of concat
refs_of-Describes env account_id w i [] h = refl
refs_of-Describes env account_id w i (part ∷ parts) ((granted, stored, readable), h) = (
  part,
  concat parts,
  refl,
  refl,
  granted,
  stored,
  readable,
  refl,
  refs_of-Describes env account_id w (i + 1) parts h,
)

abbrev manifest_of : Engine → String → ℤ → List ℕ → LocalFileState → String → Manifest
manifest_of e path time bytes known operation_id =
    (request_of e (file_entry path time (hash_file e.sha256_hex e.chunk_size bytes)) known
      operation_id).manifest

-- Where client and server hash alike and the client's chunks are not empty, the manifest that a
-- client commits for the bytes it scanned of a file describes those bytes, and the server accepts
-- it once every part of the file is stored there for the account and can be read.
pub scanned_file_verifies :
    (e : Engine) (env : Env) (account_id path operation_id : String) (time : ℤ) (bytes : List ℕ)
    (known : LocalFileState) (w : World)
    → env.sha256_hex ≡ e.sha256_hex
    → 0 < e.chunk_size
    → All (Stored env account_id w) (file_chunks e.chunk_size bytes)
    → IsVerified env account_id (manifest_of e path time bytes known operation_id) w bytes
      × ((verify_manifest env account_id (manifest_of e path time bytes known operation_id) w).0
          ≡ ok tt)
unfolding hash_file
scanned_file_verifies e env account_id path operation_id time bytes known w same positive h =
    (verified, verify_manifest_complete env account_id _ w bytes verified)
  where
    whole : concat (file_chunks e.chunk_size bytes) ≡ bytes
    whole = concat-file_chunks e.chunk_size bytes positive

    verified : IsVerified env account_id (manifest_of e path time bytes known operation_id) w bytes
    verified = record {
      described =
          subst (Describes env account_id w 0 _) whole
            (rw⁻¹ same (refs_of-Describes env account_id w 0 _ h));
      sized = ap (λ b. pos (length b)) whole;
      hashed = rw (same, whole) refl;
    }
