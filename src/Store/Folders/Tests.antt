-- ===== src/Store/Folders/Tests.antt =====
-- A folder that is reported, selected, and reported again.
use xcloud.Prelude.{String, ◌≡◌, refl, true, false, [], ◌∷◌, some, get, trim_space, pos}
use xcloud.Model.{ClientFolder, ServerState, folder_pending, folder_selected}
use xcloud.Result.{ok}
use xcloud.Store.World.{Exec, save, save_control}
use xcloud.Store.Keys.{folder_key, space_key, device_key}
use xcloud.Store.Version.{space_found}
use xcloud.Store.ClientPath.{clean_client_path, is_client_absolute_path}
use xcloud.Fileutil.{clean}
use xcloud.Store.Devices.{seen_device, adopt_root}
use xcloud.Store.Folders.{find_folder, write_folder, select_found, select_folder}
use xcloud.Store.Folders.Selected.{IsSelectedFor, SameChoice, select_folder-IsSelectedFor}
use xcloud.Store.Folders.Report.{
  FolderReportRequest, FolderReportResponse, trimmed_report, space_of_folder, reported_folder,
  report_trimmed, report_folder,
}
use xcloud.Store.Folders.Kept.{key, report_keeps_choice}
use xcloud.Store.Samples.{sample_env, empty_state, world_of}

abbrev photos : ClientFolder
photos = record {
  id = "p";
  account_id = "u";
  device_id = "d";
  hostname = "h";
  root_path = "/photos";
  parent_path = "";
  depth = pos 0;
  suggested_space_id = "default";
  space_id = "s";
  status = folder_selected;
  children_requested = true;
  children_reported = false;
  children_requested_at = 2;
  children_reported_at = 0;
  last_seen_at = 2;
  created_at = 1;
  updated_at = 2;
}

abbrev pending_state : ServerState
pending_state = record empty_state {
  client_folders =
      (
        "u\0d\0/photos",
        record photos { status = folder_pending; space_id = ""; children_requested = false },
      )
      ∷ [];
}

select_run : String → String → Exec (Unit {0})
unfolding select_folder select_found find_folder write_folder space_found space_key get save
    save_control
select_run folder_id space_id = select_folder sample_env 9 "u" folder_id space_id

chosen : (select_folder sample_env 9 "u" "p" "s" (world_of pending_state)).0 ≡ ok tt
unfolding select_run
chosen = refl

select_folder-IsSelectedFor_example :
    (space_found "u" "s" pending_state ≡ true)
    × IsSelectedFor "u" "p" "s"
        (select_folder sample_env 9 "u" "p" "s" (world_of pending_state)).1.state
select_folder-IsSelectedFor_example =
    select_folder-IsSelectedFor sample_env 9 "u" "p" "s" (world_of pending_state) chosen

abbrev selected_state : ServerState
selected_state = record empty_state { client_folders = ("u\0d\0/photos", photos) ∷ [] }

abbrev photos_again : FolderReportRequest
photos_again = record {
  device_id = "d";
  hostname = "h2";
  storage_root = "/";
  root_path = "/photos ";
  parent_path = "/";
  depth = pos 1;
  suggested_space_id = "";
}

report_run : FolderReportRequest → Exec FolderReportResponse
unfolding report_folder report_trimmed reported_folder trimmed_report space_of_folder adopt_root
    seen_device folder_key device_key space_key get is_client_absolute_path clean_client_path clean
    trim_space save save_control
report_run req = report_folder sample_env 9 "u" req

answered :
    (resp : FolderReportResponse) × ((report_folder sample_env 9 "u" photos_again
        (world_of selected_state)).0
      ≡ ok resp)
    × (resp.folder.hostname ≡ "h2")
unfolding report_run
answered = (_, refl, refl)

photos_found :
    get (key "u" (trimmed_report photos_again)) selected_state.client_folders ≡ some photos
unfolding get folder_key trimmed_report trim_space
photos_found = refl

report_keeps_choice_example :
    let after = (report_folder sample_env 9 "u" photos_again (world_of selected_state)).1 in
    SameChoice photos answered.0.folder
    × (get (key "u" (trimmed_report photos_again)) after.state.client_folders
        ≡ some answered.0.folder)
    × (after.metadata ≡ after.state)
report_keeps_choice_example =
    report_keeps_choice sample_env 9 "u" photos_again photos answered.0 (world_of selected_state)
      photos_found answered.1
