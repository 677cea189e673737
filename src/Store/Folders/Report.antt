-- ===== src/Store/Folders/Report.antt =====
-- internal/server/store.go: ReportFolder.
use xcloud.Prelude.{
  ℕ, String, Bool, true, false, not, ◌&&◌, Option, none, some, ◌==◌, if◌then◌else◌, get, trim_space,
  ℤ, pos, ltb_ℤ,
}
use xcloud.Model.{ClientFolder, SyncSpace, ServerState, folder_pending, folder_selected}
use xcloud.Result.{device_id_required, root_path_required, storage_root_not_absolute}
use xcloud.Store.World.{Env, Exec, pure, refuse_if, get_state, modify, new_id, save, ◌>>=◌, ◌>>◌}
use xcloud.Store.Keys.{folder_key, space_key}
use xcloud.Store.ClientPath.{is_client_absolute_path, clean_client_path}
use xcloud.Store.Devices.{ensure_client_device, adopt_root, put_device}
use xcloud.Store.Folders.{put_folder}

pub record FolderReportRequest : Type 0 where
  pub device_id : String
  pub hostname : String
  pub storage_root : String
  pub root_path : String
  pub parent_path : String
  pub depth : ℤ
  pub suggested_space_id : String

pub record FolderReportResponse : Type 0 where
  pub folder : ClientFolder
  pub space : Option SyncSpace
  pub selected : Bool

abbrev suggested : String → String
suggested space_id = if space_id == "" then "default" else space_id

-- The request as ReportFolder reads it.
unfoldable pub trimmed_report : FolderReportRequest → FolderReportRequest
trimmed_report req = record {
  device_id = trim_space req.device_id;
  hostname = trim_space req.hostname;
  storage_root = trim_space req.storage_root;
  root_path = trim_space req.root_path;
  parent_path = trim_space req.parent_path;
  depth = if ltb_ℤ req.depth (pos 0) then pos 0 else req.depth;
  suggested_space_id = suggested (trim_space req.suggested_space_id);
}

abbrev active_only : Option SyncSpace → Option SyncSpace
active_only none = none
active_only (some space) = if space.active then some space else none

-- The space that the folder is selected for, if it is active.
unfoldable pub space_of_folder : String → ClientFolder → ServerState → Option SyncSpace
space_of_folder account_id folder s =
    if folder.status == folder_selected && not (folder.space_id == "")
    then active_only (get (space_key account_id folder.space_id) s.spaces)
    else none

abbrev is_some : Option SyncSpace → Bool
is_some none = false
is_some (some space) = true

abbrev report_response : ClientFolder → Option SyncSpace → FolderReportResponse
report_response folder space = record { folder = folder; space = space; selected = is_some space }

module _ (env : Env) (now : ℕ) (account_id : String) where
  abbrev new_folder : FolderReportRequest → String → ClientFolder
  new_folder req id = record {
    id = id;
    account_id = account_id;
    device_id = req.device_id;
    hostname = req.hostname;
    root_path = req.root_path;
    parent_path = req.parent_path;
    depth = req.depth;
    suggested_space_id = req.suggested_space_id;
    space_id = "";
    status = folder_pending;
    children_requested = false;
    children_reported = false;
    children_requested_at = 0;
    children_reported_at = 0;
    last_seen_at = now;
    created_at = now;
    updated_at = now;
  }

  -- The folder that is reported: a new one, or the one that is known with what was reported.
  unfoldable pub reported_folder : FolderReportRequest → Option ClientFolder → Exec ClientFolder
  reported_folder req none = do id ← new_id env; pure (new_folder req id)
  reported_folder req (some folder) = pure (record folder {
    hostname = req.hostname;
    parent_path = req.parent_path;
    depth = req.depth;
    suggested_space_id = req.suggested_space_id;
    last_seen_at = now;
    updated_at = now;
  })

  abbrev report_device : FolderReportRequest → ServerState → ServerState
  report_device req s =
      put_device account_id req.device_id
        (adopt_root (clean_client_path req.storage_root) now
          (ensure_client_device account_id req.device_id req.hostname now s))
        s

  unfoldable pub report_trimmed : FolderReportRequest → Exec FolderReportResponse
  report_trimmed req = do
    refuse_if (req.device_id == "") device_id_required
    refuse_if (req.root_path == "") root_path_required
    refuse_if (not (req.storage_root == "") && not (is_client_absolute_path req.storage_root))
        storage_root_not_absolute
    let key = folder_key account_id req.device_id req.root_path
    modify (report_device req)
    s ← get_state
    folder ← reported_folder req (get key s.client_folders)
    modify (put_folder key folder)
    t ← get_state
    save env
    pure (report_response folder (space_of_folder account_id folder t))

  -- ReportFolder
  unfoldable pub report_folder : FolderReportRequest → Exec FolderReportResponse
  report_folder req = report_trimmed (trimmed_report req)
