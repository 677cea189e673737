-- ===== src/Model/Store.antt =====
-- internal/syncmodel/model.go: the server's state and its activity records.
use xcloud.Prelude.{ℕ, String, Bool, ℤ, List, Dict}
use xcloud.Model.Accounts.{Account, ClientToken, ClientDevice, SyncSpace, ClientFolder}
use xcloud.Model.Files.{FileEntry, FileVersion, CommitResponse, Event}

abbrev pub max_sync_records_per_account : ℕ
max_sync_records_per_account = 5000

abbrev pub sync_record_status_success : String
sync_record_status_success = "success"

abbrev pub sync_record_status_failed : String
sync_record_status_failed = "failed"

pub record SyncRecord : Type 0 where
  pub id : String
  pub account_id : String
  pub space_id : String
  pub device_id : String
  pub root_path : String
  pub path : String
  pub action : String
  pub status : String
  pub error : String
  pub duration_millis : ℤ
  pub created_at : ℕ

pub record SyncRecordRequest : Type 0 where
  pub space_id : String
  pub device_id : String
  pub root_path : String
  pub path : String
  pub action : String
  pub status : String
  pub error : String
  pub duration_millis : ℤ

-- `chunk_refs` and `account_chunks` hold 0 and `false` where a key is missing, as Go's maps do.
pub record ServerState : Type 0 where
  pub accounts : Dict Account
  pub client_tokens : Dict ClientToken
  pub client_devices : Dict ClientDevice
  pub spaces : Dict SyncSpace
  pub client_folders : Dict ClientFolder
  pub files : Dict FileEntry
  pub versions : Dict (List FileVersion)
  pub chunk_refs : Dict ℕ
  pub account_chunks : Dict Bool
  pub operations : Dict CommitResponse
  pub last_event_seq : ℕ
  pub events : List Event
  pub sync_records : List SyncRecord
