-- ===== src/Store/Samples.antt =====
-- A small store on which the tests of the other modules run.
use xcloud.Prelude.{ℕ, zero, suc, String, true, false, List, [], ◌∷◌, pos, ◌==◌}
use xcloud.Model.{
  FileEntry, FileVersion, Manifest, CommitRequest, DeleteRequest, SyncSpace, ServerState,
  entry_file,
}
use xcloud.Store.World.{Env, World}
use xcloud.Store.Version.{blank_entry, with_current, no_version}

abbrev pub zeros : String
zeros = "0000000000000000000000000000000000000000000000000000000000000000"

abbrev pub ones : String
ones = "1111111111111111111111111111111111111111111111111111111111111111"

abbrev unary_id : ℕ → String
unary_id zero = "i"
unary_id (suc n) = String.◌∷◌ "i" (unary_id n)

abbrev hash_of : List ℕ → String
hash_of [] = zeros
hash_of (b ∷ bs) = ones

abbrev pub sample_env : Env
sample_env = record {
  random_id = unary_id;
  sha256_hex = hash_of;
  to_lower = λ s. s;
  equal_fold = λ s t. s == t;
  format_time = λ t. "T";
  metadata_writable = λ s. true;
  control_writable = λ s. true;
  chunk_writable = λ hash. true;
  chunk_readable = λ hash. true;
}

abbrev pub sample_space : SyncSpace
sample_space = record {
  id = "s";
  account_id = "u";
  name = "s";
  description = "";
  active = true;
  created_at = 1;
  updated_at = 1;
}

abbrev pub empty_state : ServerState
empty_state = record {
  accounts = [];
  client_tokens = [];
  client_devices = [];
  spaces = ("u\0s", sample_space) ∷ [];
  client_folders = [];
  files = [];
  versions = [];
  chunk_refs = [];
  account_chunks = [];
  operations = [];
  last_event_seq = 0;
  events = [];
  sync_records = [];
}

abbrev pub world_of : ServerState → World
world_of s = record { state = s; metadata = s; control = s; chunk_files = []; issued = 0 }

-- a.txt of the space `s`, an empty file at version `v1`
abbrev pub sample_version : FileVersion
sample_version = record no_version {
  account_id = "u";
  space_id = "s";
  file_id = "f1";
  path = "a.txt";
  version_id = "v1";
  state = entry_file;
  hash = zeros;
  device_id = "d";
  created_at = 5;
}

abbrev pub sample_entry : FileEntry
sample_entry = with_current (blank_entry "u" "s" "f1" "a.txt") sample_version false 5

abbrev pub sample_state : ServerState
sample_state = record empty_state {
  files = ("u\0s\0a.txt", sample_entry) ∷ [];
  versions = ("f1", sample_version ∷ []) ∷ [];
}

abbrev pub sample_manifest : Manifest
sample_manifest = record {
  file_id = "";
  path = "a.txt";
  base_version = "v0";
  state = "";
  size = pos 0;
  hash = zeros;
  chunks = [];
  mod_time_unix = pos 7;
}

abbrev pub sample_commit : CommitRequest
sample_commit = record {
  operation_id = "op";
  device_id = "d2";
  root_path = "/r";
  manifest = sample_manifest;
}

abbrev pub sample_delete : DeleteRequest
sample_delete = record {
  operation_id = "op";
  device_id = "d2";
  root_path = "/r";
  path = "a.txt";
  file_id = "f1";
  base_version = "v1";
}
