-- ===== src/Store/Version.antt =====
-- internal/server/store.go: what commitEntryLocked, Delete and RestoreTrash do alike: a new version
-- becomes the current one of its entry, is kept in the list of versions, and makes an event.
use xcloud.Prelude.{
  ℕ, ◌+◌, String, Bool, true, false, List, [], ◌∷◌, ◌++◌, Option, none, some, get, put, pos,
}
use xcloud.Model.{FileEntry, FileVersion, ChunkRef, CommitResponse, ServerState, SyncSpace}
use xcloud.Store.Keys.{account_chunk_key, space_key, operation_key}

abbrev is_active : Option SyncSpace → Bool
is_active none = false
is_active (some space) = space.active

-- GetSpace: whether the space is there and active
unfoldable pub space_found : String → String → ServerState → Bool
space_found account_id space_id s = is_active (get (space_key account_id space_id) s.spaces)

abbrev pub blank_entry : String → String → String → String → FileEntry
blank_entry account_id space_id file_id path = record {
  account_id = account_id;
  space_id = space_id;
  file_id = file_id;
  path = path;
  current = none;
  deleted = false;
  latest_version = "";
  updated_at = 0;
}

-- entry.Current = &version, and the fields that go with it
abbrev pub with_current : FileEntry → FileVersion → Bool → ℕ → FileEntry
with_current entry version deleted now = record entry {
  current = some version;
  deleted = deleted;
  latest_version = version.version_id;
  updated_at = now;
}

abbrev list_or_nil : Option (List FileVersion) → List FileVersion
list_or_nil none = []
list_or_nil (some versions) = versions

-- s.state.Versions[fileID]
abbrev pub versions_of : String → ServerState → List FileVersion
versions_of file_id s = list_or_nil (get file_id s.versions)

abbrev number_or_zero : Option ℕ → ℕ
number_or_zero none = 0
number_or_zero (some n) = n

-- The loop over version.Chunks in commitEntryLocked.
unfoldable pub count_chunks : String → List ChunkRef → ServerState → ServerState
count_chunks account_id [] s = s
count_chunks account_id (chunk ∷ chunks) s = count_chunks account_id chunks (record s {
  chunk_refs = put chunk.hash (number_or_zero (get chunk.hash s.chunk_refs) + 1) s.chunk_refs;
  account_chunks = put (account_chunk_key account_id chunk.hash) true s.account_chunks;
})

-- The entry under its key, and the version at the end of the versions of the file.
unfoldable pub put_entry : String → FileEntry → FileVersion → ServerState → ServerState
put_entry key entry version s = record s {
  files = put key entry s.files;
  versions = put entry.file_id (versions_of entry.file_id s ++ version ∷ []) s.versions;
}

-- the zero value of FileVersion
abbrev pub no_version : FileVersion
no_version = record {
  account_id = "";
  space_id = "";
  file_id = "";
  path = "";
  version_id = "";
  base_version = "";
  state = "";
  deleted_state = "";
  size = pos 0;
  hash = "";
  chunks = [];
  mod_time_unix = pos 0;
  deleted_at = 0;
  device_id = "";
  root_path = "";
  created_at = 0;
}

abbrev pub response : FileEntry → FileVersion → CommitResponse
response entry version = record {
  status = "ok";
  entry = entry;
  version = version;
  conflict = false;
  conflict_path = "";
  current_version = none;
}

-- s.state.Operations[opKey] = resp
abbrev pub record_answer : String → String → String → CommitResponse → ServerState → ServerState
record_answer account_id space_id operation_id resp s = record s {
  operations = put (operation_key account_id space_id operation_id) resp s.operations;
}
