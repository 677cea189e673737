-- ===== src/Store/Folders.antt =====
-- internal/server/store.go: the folders that clients report and what the console asks of them.
pub mod Report
pub mod Selected
pub mod Kept
mod Tests
use xcloud.Prelude.{
  ℕ, String, Bool, true, false, not, ◌&&◌, List, [], ◌∷◌, Option, none, some, ◌==◌, if◌then◌else◌,
  get, put, Dict, trim_space,
}
use xcloud.Model.{ClientFolder, SyncSpace, ServerState, folder_selected, folder_disabled}
use xcloud.Result.{
  device_id_required, root_path_required, folder_id_required, folder_not_found, space_id_required,
  sync_space_not_found,
}
use xcloud.Store.World.{
  Env, Exec, pure, raise, resume, refuse_if, get_state, modify, save, ◌>>=◌, ◌>>◌,
}
use xcloud.Store.Keys.{folder_key}
use xcloud.Store.Version.{space_found}

abbrev or_folder :
    Bool → String → ClientFolder → Option (String × ClientFolder) → Option (String × ClientFolder)
or_folder true key folder later = some (key, folder)
or_folder false key folder later = later

abbrev pub is_folder : String → String → ClientFolder → Bool
is_folder account_id folder_id folder = folder.account_id == account_id && folder.id == folder_id

-- The loop over the folders in RequestChildren, SelectFolder and DisableFolder.
unfoldable pub find_folder : String → String → Dict ClientFolder → Option (String × ClientFolder)
find_folder account_id folder_id [] = none
find_folder account_id folder_id ((key, folder) ∷ folders) =
    or_folder (is_folder account_id folder_id folder) key folder
      (find_folder account_id folder_id folders)

abbrev pub put_folder : String → ClientFolder → ServerState → ServerState
put_folder key folder s = record s { client_folders = put key folder s.client_folders }

abbrev pub ask_children : ℕ → ClientFolder → ClientFolder
ask_children now folder = record folder {
  children_requested = true;
  children_reported = false;
  children_requested_at = now;
}

module _ (env : Env) (now : ℕ) (account_id : String) where
  unfoldable pub write_folder : String → ClientFolder → Exec (Unit {0})
  write_folder key folder = do
    modify (put_folder key (record folder { updated_at = now }))
    save env

  unfoldable pub request_found : Option (String × ClientFolder) → Exec (Unit {0})
  request_found none = raise folder_not_found
  request_found (some (key, folder)) =
      if folder.children_reported then pure tt else write_folder key (ask_children now folder)

  -- RequestChildren
  unfoldable pub request_children : String → Exec (Unit {0})
  request_children folder_id = do
    refuse_if (folder_id == "") folder_id_required
    s ← get_state
    request_found (find_folder account_id folder_id s.client_folders)

  unfoldable pub mark_found : String → Option ClientFolder → Exec (Unit {0})
  mark_found key none = raise folder_not_found
  mark_found key (some folder) =
      write_folder key (record folder { children_reported = true; children_reported_at = now })

  -- MarkChildrenReported
  unfoldable pub mark_children_reported : String → String → Exec (Unit {0})
  mark_children_reported device_id root_path = do
    refuse_if (device_id == "") device_id_required
    refuse_if (trim_space root_path == "") root_path_required
    let key = folder_key account_id device_id (trim_space root_path)
    s ← get_state
    mark_found key (get key s.client_folders)

  abbrev pub selected : String → ClientFolder → ClientFolder
  selected space_id folder =
      let chosen = record folder { space_id = space_id; status = folder_selected } in
      if folder.children_reported then chosen else ask_children now chosen

  unfoldable pub select_found : String → Option (String × ClientFolder) → Exec (Unit {0})
  select_found space_id none = raise folder_not_found
  select_found space_id (some (key, folder)) = write_folder key (selected space_id folder)

  -- SelectFolder
  unfoldable pub select_folder : String → String → Exec (Unit {0})
  select_folder folder_id space_id = do
    refuse_if (folder_id == "") folder_id_required
    refuse_if (space_id == "") space_id_required
    s ← get_state
    refuse_if (not (space_found account_id space_id s)) sync_space_not_found
    select_found space_id (find_folder account_id folder_id s.client_folders)

  unfoldable pub disable_found : Option (String × ClientFolder) → Exec (Unit {0})
  disable_found none = raise folder_not_found
  disable_found (some (key, folder)) = write_folder key (record folder { status = folder_disabled })

  -- DisableFolder
  unfoldable pub disable_folder : String → Exec (Unit {0})
  disable_folder folder_id = do
    refuse_if (folder_id == "") folder_id_required
    s ← get_state
    disable_found (find_folder account_id folder_id s.client_folders)

abbrev selects : String → Option ClientFolder → Bool
selects space_id none = false
selects space_id (some folder) = folder.status == folder_selected && folder.space_id == space_id

-- FolderSelected
unfoldable pub is_folder_selected : String → String → String → String → ServerState → Bool
is_folder_selected account_id device_id root_path space_id s =
    selects space_id (get (folder_key account_id device_id root_path) s.client_folders)
