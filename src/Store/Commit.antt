-- ===== src/Store/Commit.antt =====
-- internal/server/store.go: Commit, commitEntryLocked and ensureParentDirsLocked.
pub mod Request
pub mod History
pub mod Stale
pub mod Stored
mod Tests
use xcloud.Prelude.{
  ℕ, String, Bool, true, false, not, ◌&&◌, ◌||◌, List, [], ◌∷◌, Option, none, some, ℤ, pos,
  if◌then◌else◌, ◌==◌, eqb_ℤ, ◌<>◌, trim_space, split, Dict, get, put,
}
use xcloud.Model.{
  FileEntry, FileVersion, Manifest, ChunkRef, CommitRequest, CommitResponse, ServerState,
  entry_file, entry_dir,
}
use xcloud.Result.{
  Result, ok, err, operation_id_required, device_id_required, manifest_path_required,
  invalid_manifest_state, manifest_hash_required, invalid_file_hash, sync_space_not_found,
  directory_with_content, file_id_mismatch,
}
use xcloud.Fileutil.{clean_rel, dir}
use xcloud.Store.World.{
  Env, World, Exec, pure, raise, lift, resume, refuse_if, get_state, modify, new_id, save, ◌>>=◌,
  ◌>>◌,
}
use xcloud.Store.Keys.{file_key, operation_key}
use xcloud.Store.Conflict.{next_conflict_path}
use xcloud.Store.Events.{append_event}
use xcloud.Store.Chunks.{is_hash, verify_manifest}
use xcloud.Store.Version.{blank_entry, with_current, count_chunks, put_entry, response}

-- Where a version is written: at its own path, or at a conflict path with an entry of its own.
pub record Target : Type 0 where
  pub entry : FileEntry
  pub path : String
  pub conflict : Bool
  pub conflict_path : String

-- The current version, if a directory is committed where a directory already is.
abbrev pub same_dir : String → FileEntry → Option FileVersion
same_dir state entry = elim entry.current [
  | none ↦ none
  | some v ↦
      if state == entry_dir && v.state == entry_dir && not entry.deleted then some v else none
]

-- entry.Current != nil && manifest.BaseVersion != entry.Current.VersionID
abbrev pub is_stale : String → FileEntry → Bool
is_stale base_version entry = elim entry.current [
  | none ↦ false
  | some v ↦ not (base_version == v.version_id)
]

abbrev pub is_dir_entry : Option FileEntry → Bool
is_dir_entry none = false
is_dir_entry (some entry) = elim entry.current [
  | none ↦ false
  | some v ↦ not entry.deleted && v.state == entry_dir
]

module _ (env : Env) (now : ℕ) (account_id space_id : String) where
  -- s.state.Files[key], with a new entry put there if there is none
  unfoldable pub add_entry : String → Exec FileEntry
  add_entry path = do
    file_id ← new_id env
    modify λ s. record s {
      files =
          put (file_key account_id space_id path) (blank_entry account_id space_id file_id path)
            s.files;
    }
    pure (blank_entry account_id space_id file_id path)

  unfoldable pub or_add : Option FileEntry → String → Exec FileEntry
  or_add none path = add_entry path
  or_add (some entry) path = pure entry

  unfoldable pub find_entry : String → Exec FileEntry
  find_entry path w = or_add (get (file_key account_id space_id path) w.state.files) path w

  unfoldable pub conflict_target : String → String → Exec Target
  conflict_target path device_id = do
    s ← get_state
    let aside = next_conflict_path s.files path device_id (env.format_time now)
    entry ← add_entry aside
    pure (record { entry = entry; path = aside; conflict = true; conflict_path = aside })

  unfoldable pub choose_target : FileEntry → String → CommitRequest → Exec Target
  unfolding conflict_target
  choose_target entry path req =
      if is_stale req.manifest.base_version entry
      then conflict_target path req.device_id
      else pure (record { entry = entry; path = path; conflict = false; conflict_path = "" })

  abbrev pub new_version : Target → CommitRequest → String → String → FileVersion
  new_version target req state version_id = record {
    account_id = account_id;
    space_id = space_id;
    file_id = target.entry.file_id;
    path = target.path;
    version_id = version_id;
    base_version = req.manifest.base_version;
    state = state;
    deleted_state = "";
    size = req.manifest.size;
    hash = req.manifest.hash;
    chunks = req.manifest.chunks;
    mod_time_unix = req.manifest.mod_time_unix;
    deleted_at = 0;
    device_id = req.device_id;
    root_path = req.root_path;
    created_at = now;
  }

  -- The effect of a new version on the state.
  unfoldable pub store_version : Target → FileVersion → ServerState → ServerState
  store_version target version s =
      let entry = with_current target.entry version false now in
      let stored = put_entry (file_key account_id space_id target.path) entry version s in
      append_event version (
        if version.state == entry_file
        then count_chunks account_id version.chunks stored
        else stored)

  unfoldable pub write_version : Target → CommitRequest → String → Exec CommitResponse
  write_version target req state = do
    version_id ← new_id env
    let version = new_version target req state version_id
    modify (store_version target version)
    pure (record {
      status = "ok";
      entry = with_current target.entry version false now;
      version = version;
      conflict = target.conflict;
      conflict_path = target.conflict_path;
      current_version = none;
    })

  unfoldable pub commit_version : FileEntry → CommitRequest → String → String → Exec CommitResponse
  commit_version entry req path state = do
    target ← choose_target entry path req
    write_version target req state

  -- The current directory is the answer, if there is one.
  unfoldable pub commit_over :
      Option FileVersion → FileEntry → CommitRequest → String → String → Exec CommitResponse
  commit_over none entry req path state = commit_version entry req path state
  commit_over (some current) entry req path state = pure (response entry current)

  unfoldable pub commit_found : CommitRequest → String → String → FileEntry → Exec CommitResponse
  commit_found req path state entry = do
    refuse_if (not (req.manifest.file_id == "") && not (entry.file_id == req.manifest.file_id))
        file_id_mismatch
    commit_over (same_dir state entry) entry req path state

  -- commitEntryLocked
  unfoldable pub commit_entry : CommitRequest → String → String → Exec CommitResponse
  commit_entry req path state = do entry ← find_entry path; commit_found req path state entry
