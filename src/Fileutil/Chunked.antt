-- ===== src/Fileutil/Chunked.antt =====
-- internal/fileutil/fileutil.go: HashFile and WriteFileChunks on the bytes of a file that can be read.
use xcloud.Prelude.{ℕ, zero, suc, ◌+◌, String, List, [], ◌∷◌, ◌++◌, pos, length, take, drop}
use xcloud.Model.{ChunkRef}

-- The parts that io.ReadFull reads, each of `size` bytes but for the last. One round for each byte
-- is enough where a part is not empty.
unfoldable pub read_parts : ℕ → ℕ → List ℕ → List (List ℕ)
read_parts zero size bytes = []
read_parts (suc n) size [] = []
read_parts (suc n) size (b ∷ bytes) =
    take size (b ∷ bytes) ∷ read_parts n size (drop size (b ∷ bytes))

unfoldable pub concat : List (List ℕ) → List ℕ
concat [] = []
concat (part ∷ parts) = part ++ concat parts

-- What WriteFileChunks hands to its callback, in turn.
unfoldable pub file_chunks : ℕ → List ℕ → List (List ℕ)
unfolding read_parts
file_chunks size bytes = read_parts (length bytes) size bytes

module _ (sha256_hex : List ℕ → String) where
  abbrev pub ref_of : ℕ → List ℕ → ChunkRef
  ref_of index part = record { index = pos index; hash = sha256_hex part; size = pos (length part) }

  unfoldable pub refs_of : ℕ → List (List ℕ) → List ChunkRef
  refs_of index [] = []
  refs_of index (part ∷ parts) = ref_of index part ∷ refs_of (index + 1) parts

  -- HashFile: the hash of all that is read, the chunks and the number of bytes
  unfoldable pub hash_file : ℕ → List ℕ → String × List ChunkRef × ℕ
  unfolding file_chunks concat refs_of
  hash_file size bytes = (
    sha256_hex (concat (file_chunks size bytes)),
    refs_of 0 (file_chunks size bytes),
    length (concat (file_chunks size bytes)),
  )
