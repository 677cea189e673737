-- ===== src/Model/Files.antt =====
-- internal/syncmodel/model.go: versions, entries, events and the requests that make them.
use xcloud.Prelude.{ℕ, ◌*◌, String, Bool, ℤ, List, Option}

abbrev pub trash_retention_seconds : ℕ
trash_retention_seconds = 10 * 24 * 60 * 60

abbrev pub entry_file : String
entry_file = "file"

abbrev pub entry_dir : String
entry_dir = "dir"

abbrev pub entry_deleted : String
entry_deleted = "deleted"

pub record ChunkRef : Type 0 where
  pub index : ℤ
  pub hash : String
  pub size : ℤ

pub record FileVersion : Type 0 where
  pub account_id : String
  pub space_id : String
  pub file_id : String
  pub path : String
  pub version_id : String
  pub base_version : String
  pub state : String
  pub deleted_state : String
  pub size : ℤ
  pub hash : String
  pub chunks : List ChunkRef
  pub mod_time_unix : ℤ
  pub deleted_at : ℕ
  pub device_id : String
  pub root_path : String
  pub created_at : ℕ

pub record FileEntry : Type 0 where
  pub account_id : String
  pub space_id : String
  pub file_id : String
  pub path : String
  pub current : Option FileVersion
  pub deleted : Bool
  pub latest_version : String
  pub updated_at : ℕ

pub record TrashEntry : Type 0 where
  pub account_id : String
  pub space_id : String
  pub file_id : String
  pub path : String
  pub version_id : String
  pub size : ℤ
  pub hash : String
  pub deleted_at : ℕ
  pub expires_at : ℕ
  pub device_id : String

pub record Event : Type 0 where
  pub account_id : String
  pub space_id : String
  pub seq : ℕ
  pub path : String
  pub file_id : String
  pub version_id : String
  pub state : String
  pub device_id : String
  pub root_path : String
  pub created_at : ℕ
  pub version : FileVersion

pub record Manifest : Type 0 where
  pub file_id : String
  pub path : String
  pub base_version : String
  pub state : String
  pub size : ℤ
  pub hash : String
  pub chunks : List ChunkRef
  pub mod_time_unix : ℤ

pub record CommitRequest : Type 0 where
  pub operation_id : String
  pub device_id : String
  pub root_path : String
  pub manifest : Manifest

pub record CommitResponse : Type 0 where
  pub status : String
  pub entry : FileEntry
  pub version : FileVersion
  pub conflict : Bool
  pub conflict_path : String
  pub current_version : Option FileVersion

pub record DeleteRequest : Type 0 where
  pub operation_id : String
  pub device_id : String
  pub root_path : String
  pub path : String
  pub file_id : String
  pub base_version : String

pub record RestoreRequest : Type 0 where
  pub account_id : String
  pub space_id : String
  pub file_id : String
  pub path : String

-- What a client knows of a path.
pub record LocalFileState : Type 0 where
  pub path : String
  pub file_id : String
  pub version_id : String
  pub state : String
  pub deleted_state : String
  pub size : ℤ
  pub hash : String
  pub chunks : List ChunkRef
  pub mod_time_unix : ℤ
  pub updated_at : ℕ
