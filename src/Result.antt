-- ===== src/Result.antt =====
-- The errors that the server's code returns, one constructor for each message, and the values that
-- carry them.
use xcloud.Prelude.{◌≡◌}

pub data Error : Type 0 where
  -- fileutil.CleanRel
  empty_path absolute_path unsafe_segment invalid_path : Error
  -- os, json and database/sql, in saveLocked and in the chunk store
  metadata_not_written control_not_written chunk_not_written chunk_not_read : Error
  -- accounts and client tokens
  storage_root_not_absolute invalid_login account_not_found username_required : Error
  username_invalid email_invalid password_required password_short : Error
  account_exists email_registered new_password_short wrong_password : Error
  -- devices, folders and spaces
  device_id_required root_path_required folder_id_required folder_not_found : Error
  storage_root_required device_not_found space_id_required sync_space_not_found : Error
  space_name_required space_not_found : Error
  -- chunks and manifests
  invalid_chunk_hash chunk_hash_mismatch missing_chunk chunk_not_available : Error
  empty_list_with_size empty_hash_mismatch chunk_index_mismatch chunk_size_mismatch : Error
  file_size_mismatch file_hash_mismatch : Error
  -- Commit, Delete, RestoreTrash
  operation_id_required manifest_path_required invalid_manifest_state : Error
  manifest_hash_required invalid_file_hash directory_with_content file_id_mismatch : Error
  path_required path_not_found file_id_required trash_not_found trash_expired : Error
  not_restorable : Error
  -- the server's settings, in their file and in the database, and RuntimeConfig.ApplyListenAddr
  config_not_written row_not_written : Error
  invalid_address invalid_listen_port : Error
  -- the client: its context, its disk, its state file and its server
  cancelled not_exist not_a_directory is_a_directory directory_not_empty : Error
  disk_refused state_not_written not_answered : Error
  chunk_size_differs chunk_hash_differs download_not_verified unknown_state : Error
  -- AddSyncRecord
  action_required status_required invalid_record_status : Error

pub data Result {ℓ} (A : Type ℓ) : Type ℓ where
  ok : A → Result A
  err : Error → Result A

pub ok_inj {ℓ} : {A : Type ℓ} {a b : A} → ok a ≡ ok b → a ≡ b
ok_inj e = cc
