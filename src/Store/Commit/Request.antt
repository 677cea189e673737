-- ===== src/Store/Commit/Request.antt =====
-- internal/server/store.go: Commit and ensureParentDirsLocked.
pub mod Log
use xcloud.Prelude.{
  ℕ, String, Bool, true, false, not, ◌&&◌, ◌||◌, List, [], ◌∷◌, Option, none, some, ℤ, pos,
  if◌then◌else◌, ◌==◌, eqb_ℤ, ◌<>◌, trim_space, split, Dict, get, put,
}
use xcloud.Model.{Manifest, CommitRequest, CommitResponse, ServerState, entry_file, entry_dir}
use xcloud.Result.{
  operation_id_required, device_id_required, manifest_path_required, invalid_manifest_state,
  manifest_hash_required, invalid_file_hash, sync_space_not_found, directory_with_content,
}
use xcloud.Fileutil.{clean_rel, dir}
use xcloud.Store.World.{
  Env, World, Exec, pure, raise, lift, resume, refuse_if, get_state, modify, save, ◌>>=◌, ◌>>◌,
}
use xcloud.Store.Keys.{file_key, operation_key}
use xcloud.Store.Chunks.{is_hash, verify_manifest}
use xcloud.Store.Version.{space_found, record_answer}
use xcloud.Store.Commit.{is_dir_entry, commit_entry}

-- The request that makes a missing parent directory.
abbrev pub dir_request : String → String → String → ℤ → CommitRequest
dir_request path device_id root_path mod_time_unix = record {
  operation_id = "";
  device_id = device_id;
  root_path = root_path;
  manifest = record {
    file_id = "";
    path = path;
    base_version = "";
    state = entry_dir;
    size = pos 0;
    hash = "";
    chunks = [];
    mod_time_unix = mod_time_unix;
  };
}

-- strings.TrimSpace(manifest.State), a file if that is empty
unfoldable pub manifest_state : Manifest → String
manifest_state manifest =
    let state = trim_space manifest.state in if state == "" then entry_file else state

abbrev has_content : Manifest → Bool
has_content manifest =
    not (manifest.hash == "")
    || not (eqb_ℤ manifest.size (pos 0))
    || elim manifest.chunks [ [] ↦ false | _ ∷ _ ↦ true ]

-- req.RootPath = strings.TrimSpace(req.RootPath)
abbrev pub trimmed : CommitRequest → CommitRequest
trimmed req = record req { root_path = trim_space req.root_path }

-- `current` of the loop of ensureParentDirsLocked
abbrev pub next_dir : String → String → String
next_dir current part = if current == "" then part else current <> "/" <> part

module _ (env : Env) (now : ℕ) (account_id space_id : String) where
  -- One round of the loop of ensureParentDirsLocked.
  unfoldable pub ensure_dir : String → String → ℤ → String → Exec (Unit {0})
  ensure_dir device_id root_path mod_time_unix path = do
    s ← get_state
    if is_dir_entry (get (file_key account_id space_id path) s.files) then pure tt else do
      _ ←
          commit_entry env now account_id space_id
            (dir_request path device_id root_path mod_time_unix) path entry_dir
      pure tt

  unfoldable pub ensure_dirs : String → String → ℤ → String → List String → Exec (Unit {0})
  ensure_dirs device_id root_path mod_time_unix current [] = pure tt
  ensure_dirs device_id root_path mod_time_unix current (part ∷ parts) = do
    ensure_dir device_id root_path mod_time_unix (next_dir current part)
    ensure_dirs device_id root_path mod_time_unix (next_dir current part) parts

  -- ensureParentDirsLocked
  unfoldable pub ensure_parent_dirs : String → String → String → ℤ → Exec (Unit {0})
  ensure_parent_dirs path device_id root_path mod_time_unix =
      if dir path == "." || dir path == "/" || dir path == ""
      then pure tt
      else ensure_dirs device_id root_path mod_time_unix "" (split 47 (dir path))

  -- A file is verified, and a directory has no content.
  unfoldable pub check_content : Bool → Manifest → Exec (Unit {0})
  check_content true manifest = verify_manifest env account_id manifest
  check_content false manifest = refuse_if (has_content manifest) directory_with_content

  -- Commit up to the lock: the tests of the request, and the clean path. verifyManifest runs here.
  unfoldable pub check_commit : CommitRequest → Exec String
  check_commit req = do
    let manifest = req.manifest
    let state = manifest_state manifest
    refuse_if (req.operation_id == "") operation_id_required
    refuse_if (req.device_id == "") device_id_required
    refuse_if (manifest.path == "") manifest_path_required
    refuse_if (not (state == entry_file) && not (state == entry_dir)) invalid_manifest_state
    refuse_if (state == entry_file && manifest.hash == "") manifest_hash_required
    refuse_if (state == entry_file && not (is_hash manifest.hash)) invalid_file_hash
    s ← get_state
    refuse_if (not (space_found account_id space_id s)) sync_space_not_found
    path ← lift (clean_rel manifest.path)
    check_content (state == entry_file) manifest
    pure path

  -- A commit that was not answered before: done, recorded and saved.
  unfoldable pub commit_new : CommitRequest → String → String → Exec CommitResponse
  commit_new req path state = do
    resp ← commit_entry env now account_id space_id req path state
    modify (record_answer account_id space_id req.operation_id resp)
    save env
    pure resp

  -- A commit that was answered before gets the same answer.
  unfoldable pub answer :
      Option CommitResponse → CommitRequest → String → String → Exec CommitResponse
  answer (some existing) req path state = pure existing
  answer none req path state = commit_new req path state

  unfoldable pub lookup_operation : String → World → Option CommitResponse
  lookup_operation operation_id w =
      get (operation_key account_id space_id operation_id) w.state.operations

  -- Commit under the lock.
  unfoldable pub commit_locked : CommitRequest → String → String → Exec CommitResponse
  commit_locked req path state = do
    ensure_parent_dirs path req.device_id req.root_path req.manifest.mod_time_unix
    λ w. answer (lookup_operation req.operation_id w) req path state w

  -- Commit
  unfoldable pub commit : CommitRequest → Exec CommitResponse
  commit req = do
    path ← check_commit (trimmed req)
    commit_locked (trimmed req) path (manifest_state req.manifest)
