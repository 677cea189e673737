-- ===== src/Store/Trash/Restore.antt =====
-- internal/server/store.go: ListTrash and RestoreTrash.
use xcloud.Prelude.{
  ℕ, ◌+◌, String, Bool, false, not, List, Option, none, some, ℤ, pos, leb_ℤ, pos_part,
  if◌then◌else◌, ◌==◌, leb, trim_space, take, get,
}
use xcloud.Model.{
  FileEntry, FileVersion, TrashEntry, RestoreRequest, CommitResponse, ServerState, entry_file,
  trash_retention_seconds,
}
use xcloud.Result.{
  Error, sync_space_not_found, file_id_required, trash_not_found, trash_expired, not_restorable,
}
use xcloud.Fileutil.{clean_rel}
use xcloud.Store.World.{
  Env, Exec, pure, raise, lift, refuse_if, get_state, modify, new_id, save, ◌>>=◌, ◌>>◌,
}
use xcloud.Store.Keys.{file_key}
use xcloud.Store.Events.{append_event}
use xcloud.Store.Version.{space_found, with_current, versions_of, put_entry, response}
use xcloud.Store.Trash.{
  tombstone_in, prune_trash, prunes, collect_trash, sort_trash, restore_source, restore_device,
  restore_space, try_save,
}

-- limit, or 200
abbrev pub list_limit : ℤ → ℕ
list_limit limit = if leb_ℤ limit (pos 0) then 200 else pos_part limit

module _ (env : Env) (now : ℕ) (account_id : String) where
  -- ListTrash
  unfoldable pub list_trash : ℤ → Exec (List TrashEntry)
  list_trash limit = do
    s ← get_state
    modify (prune_trash now)
    if prunes now s then try_save env else pure tt
    t ← get_state
    pure (take (list_limit limit) (sort_trash (collect_trash now account_id t.files)))

  -- A restore that fails behind the pruning saves what was pruned.
  unfoldable pub refuse_restore : Bool → Error → Exec CommitResponse
  refuse_restore pruned e = do if pruned then try_save env else pure tt; raise e

  abbrev pub restored_version :
      FileEntry → String → String → FileVersion → FileVersion → String → String → FileVersion
  restored_version entry space_id path current source device_id version_id = record {
    account_id = account_id;
    space_id = space_id;
    file_id = entry.file_id;
    path = path;
    version_id = version_id;
    base_version = current.version_id;
    state = entry_file;
    deleted_state = "";
    size = source.size;
    hash = source.hash;
    chunks = source.chunks;
    mod_time_unix = pos now;
    deleted_at = 0;
    device_id = device_id;
    root_path = "cloud-trash";
    created_at = now;
  }

  unfoldable pub store_restored :
      FileEntry → String → String → FileVersion → ServerState → ServerState
  store_restored entry space_id path version s = append_event version (
      put_entry (file_key account_id space_id path) (with_current entry version false now) version
        s)

  unfoldable pub write_restored :
      FileEntry → String → String → FileVersion → FileVersion → String → Exec CommitResponse
  write_restored entry space_id path current source device_id = do
    version_id ← new_id env
    let version = restored_version entry space_id path current source device_id version_id
    modify (store_restored entry space_id path version)
    save env
    pure (response (with_current entry version false now) version)

  unfoldable pub restore_from :
      Bool
      → FileEntry
      → String
      → String
      → FileVersion
      → String
      → Option FileVersion
      → Exec CommitResponse
  restore_from pruned entry space_id path current device_id none =
      refuse_restore pruned not_restorable
  restore_from pruned entry space_id path current device_id (some source) =
      write_restored entry space_id path current source device_id

  unfoldable pub restore_tombstone :
      Bool → FileEntry → String → String → String → Option FileVersion → Exec CommitResponse
  restore_tombstone pruned entry space_id path device_id none w =
      refuse_restore pruned trash_not_found w
  restore_tombstone pruned entry space_id path device_id (some current) w =
      if leb (current.deleted_at + trash_retention_seconds) now
      then refuse_restore pruned trash_expired w
      else restore_from pruned entry space_id path current device_id
          (restore_source (versions_of entry.file_id w.state) current) w

  unfoldable pub restore_at :
      Bool → String → String → String → String → Option FileEntry → Exec CommitResponse
  restore_at pruned space_id path file_id device_id none = refuse_restore pruned trash_not_found
  restore_at pruned space_id path file_id device_id (some entry) =
      if not (entry.file_id == file_id)
      then refuse_restore pruned trash_not_found
      else restore_tombstone pruned entry space_id path device_id (tombstone_in entry)

  -- RestoreTrash under the lock.
  unfoldable pub restore_locked : String → String → String → String → Exec CommitResponse
  restore_locked space_id path file_id device_id = do
    s ← get_state
    modify (prune_trash now)
    λ w.
        restore_at (prunes now s) space_id path file_id device_id
          (get (file_key account_id space_id path) w.state.files) w

  -- RestoreTrash
  unfoldable pub restore_trash : RestoreRequest → String → Exec CommitResponse
  restore_trash req actor = do
    let space_id = restore_space req
    s ← get_state
    refuse_if (not (space_found account_id space_id s)) sync_space_not_found
    path ← lift (clean_rel req.path)
    refuse_if (trim_space req.file_id == "") file_id_required
    restore_locked space_id path (trim_space req.file_id) (restore_device actor)
