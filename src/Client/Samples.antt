-- ===== src/Client/Samples.antt =====
-- A small engine, its server and its disk, on which the tests of the other modules run.
use xcloud.Prelude.{String, true, false, List, [], ◌∷◌, pos}
use xcloud.Model.{Event, FileVersion, LocalFileState, entry_file, entry_dir, entry_deleted}
use xcloud.Result.{ok, err, not_answered}
use xcloud.Store.Samples.{sample_env, sample_version}
use xcloud.Client.Local.{file, Remote, Engine, StateData, Device}
use xcloud.Client.Apply.{nothing_known}

abbrev pub sample_engine : Engine
sample_engine = record {
  device_id = "me";
  root = "/r";
  space_id = "s";
  chunk_size = 4;
  random_id = λ n. "id";
  sha256_hex = sample_env.sha256_hex;
  now = 7;
  time_text = "T";
  elapsed = pos 1;
  error_text = λ e. "error";
  is_cancelled = λ n. false;
  state_writable = λ n. true;
  may_change = λ path. true;
  may_read = λ path. true;
}

-- version v2 of a.txt, empty as v1 is
abbrev pub newer_version : FileVersion
newer_version = record sample_version { version_id = "v2"; hash = "h" }

abbrev pub sample_event : Event
sample_event = record {
  account_id = "u";
  space_id = "s";
  seq = 3;
  path = "a.txt";
  file_id = "f1";
  version_id = "v2";
  state = entry_file;
  device_id = "d";
  root_path = "/r";
  created_at = 5;
  version = newer_version;
}

-- the directory b, deleted again
abbrev pub deleted_dir : FileVersion
deleted_dir = record sample_version {
  path = "b";
  version_id = "v4";
  state = entry_deleted;
  deleted_state = entry_dir;
}

-- A server whose events are one version of a.txt, and which answers nothing else.
abbrev pub sample_remote : Remote
sample_remote = record {
  State = List String;
  events = λ after s. (ok (sample_event ∷ []), s);
  download_chunk = λ hash s. (err not_answered, s);
  check_chunks = λ hashes s. (err not_answered, s);
  upload_chunk = λ hash bytes s. (err not_answered, s);
  commit = λ request s. (err not_answered, s);
  delete = λ request s. (err not_answered, s);
  report_sync_record = λ request s. (ok tt, request.action ∷ s);
}

abbrev pub known_file : LocalFileState
known_file = record nothing_known {
  path = "a.txt";
  version_id = "v1";
  state = entry_file;
  hash = "h";
}

abbrev pub known_dir : LocalFileState
known_dir = record nothing_known {
  path = "b";
  version_id = "v3";
  state = entry_deleted;
  deleted_state = entry_dir;
}

abbrev pub sample_memory : StateData
sample_memory = record {
  files = ("a.txt", known_file) ∷ ("b", known_dir) ∷ [];
  last_event_seq = 0;
  space_id = "s";
  reported_dirs = [];
}

-- a.txt is known as an empty file and holds one byte; b is known as a deleted directory and holds
-- a file.
abbrev pub sample_device : Device (List String)
sample_device = record {
  disk = ("a.txt", file (65 ∷ []) (pos 9)) ∷ ("b", file (66 ∷ []) (pos 9)) ∷ [];
  memory = sample_memory;
  saved = sample_memory;
  checks = 0;
  saves = 0;
  issued = 0;
  remote = [];
}
