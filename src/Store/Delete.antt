-- ===== src/Store/Delete.antt =====
-- internal/server/store.go: Delete.
pub mod Once
mod Tests
use xcloud.Prelude.{
  ℕ, String, Bool, true, false, not, ◌&&◌, ◌||◌, [], Option, none, some, pos, if◌then◌else◌, ◌==◌,
  trim_space, get, put,
}
use xcloud.Model.{
  FileEntry, FileVersion, DeleteRequest, CommitResponse, ServerState, entry_dir, entry_deleted,
}
use xcloud.Result.{
  operation_id_required, device_id_required, path_required, sync_space_not_found, path_not_found,
  file_id_mismatch,
}
use xcloud.Fileutil.{clean_rel}
use xcloud.Store.World.{
  Env, World, Exec, pure, raise, lift, resume, refuse_if, get_state, modify, new_id, save, ◌>>=◌,
  ◌>>◌,
}
use xcloud.Store.Keys.{file_key, operation_key}
use xcloud.Store.Events.{append_event}
use xcloud.Store.Version.{space_found, with_current, put_entry, response, no_version, record_answer}

-- The answer to a delete whose base version is not the current one.
abbrev pub delete_conflict : FileEntry → CommitResponse
delete_conflict entry = record {
  status = "conflict";
  entry = entry;
  version = no_version;
  conflict = true;
  conflict_path = "";
  current_version = entry.current;
}

-- *entry.Current, or the zero value
abbrev pub previous_of : FileEntry → FileVersion
previous_of entry = elim entry.current [ none ↦ no_version | some v ↦ v ]

-- entry.Current != nil && test(entry.Current)
abbrev pub current_is : (FileVersion → Bool) → FileEntry → Bool
current_is test entry = elim entry.current [ none ↦ false | some v ↦ test v ]

-- req.RootPath = strings.TrimSpace(req.RootPath)
abbrev pub trimmed : DeleteRequest → DeleteRequest
trimmed req = record req { root_path = trim_space req.root_path }

module _ (env : Env) (now : ℕ) (account_id space_id : String) where
  abbrev tombstone_of : FileEntry → FileVersion → DeleteRequest → String → String → FileVersion
  tombstone_of entry previous req path version_id = record {
    account_id = account_id;
    space_id = space_id;
    file_id = entry.file_id;
    path = path;
    version_id = version_id;
    base_version = req.base_version;
    state = entry_deleted;
    deleted_state = previous.state;
    size = previous.size;
    hash = previous.hash;
    chunks = previous.chunks;
    mod_time_unix = previous.mod_time_unix;
    deleted_at = now;
    device_id = req.device_id;
    root_path = req.root_path;
    created_at = now;
  }

  -- The version that marks the path as deleted; a directory's has no content.
  unfoldable pub tombstone : FileEntry → DeleteRequest → String → String → FileVersion
  tombstone entry req path version_id =
      let version = tombstone_of entry (previous_of entry) req path version_id in
      if current_is (λ v. v.state == entry_dir) entry
      then record version { size = pos 0; hash = ""; chunks = []; mod_time_unix = pos 0 }
      else version

  unfoldable pub store_tombstone : FileEntry → String → FileVersion → ServerState → ServerState
  store_tombstone entry path version s = append_event version (
      put_entry (file_key account_id space_id path) (with_current entry version true now) version s)

  -- s.state.Operations[opKey] = resp, and the save
  unfoldable pub finish : String → CommitResponse → Exec CommitResponse
  finish operation_id resp = do
    modify (record_answer account_id space_id operation_id resp)
    save env
    pure resp

  unfoldable pub write_tombstone : FileEntry → DeleteRequest → String → Exec CommitResponse
  write_tombstone entry req path = do
    version_id ← new_id env
    let version = tombstone entry req path version_id
    modify (store_tombstone entry path version)
    finish req.operation_id (response (with_current entry version true now) version)

  unfoldable pub delete_found : FileEntry → DeleteRequest → String → Exec CommitResponse
  delete_found entry req path =
      if not (req.file_id == "") && not (req.file_id == entry.file_id)
      then raise file_id_mismatch
      else if current_is (λ v. not (req.base_version == v.version_id)) entry
      then finish req.operation_id (delete_conflict entry)
      else if current_is (λ v. v.state == entry_deleted) entry
      then finish req.operation_id (response entry (previous_of entry))
      else write_tombstone entry req path

  unfoldable pub delete_at : Option FileEntry → DeleteRequest → String → Exec CommitResponse
  delete_at none req path = raise path_not_found
  delete_at (some entry) req path = delete_found entry req path

  unfoldable pub delete_new : DeleteRequest → Exec CommitResponse
  delete_new req = do
    path ← lift (clean_rel req.path)
    λ w. delete_at (get (file_key account_id space_id path) w.state.files) req path w

  -- A delete that was answered before gets the same answer.
  unfoldable pub delete_once : Option CommitResponse → DeleteRequest → Exec CommitResponse
  delete_once (some existing) req = pure existing
  delete_once none req = delete_new req

  -- Delete
  unfoldable pub delete : DeleteRequest → Exec CommitResponse
  delete req = do
    refuse_if (req.operation_id == "") operation_id_required
    refuse_if (req.device_id == "") device_id_required
    refuse_if (req.path == "") path_required
    s ← get_state
    refuse_if (not (space_found account_id space_id s)) sync_space_not_found
    λ w.
        delete_once (get (operation_key account_id space_id req.operation_id) w.state.operations)
          (trimmed req) w
