-- ===== src/Store/Folders/Kept.antt =====
-- internal/server/store.go: ReportFolder leaves what the console chose.
use xcloud.Prelude.{
  ℕ, String, ◌≡◌, refl, ◌∙◌, ap, false, not, ◌&&◌, some, arith, ◌==◌, get, get-put_self, subst,
}
use xcloud.Model.{ClientFolder}
use xcloud.Result.{ok}
use xcloud.Store.World.{Env, World}
use xcloud.Store.World.Keeps.{save_then}
use xcloud.Store.Keys.{folder_key}
use xcloud.Store.ClientPath.{is_client_absolute_path}
use xcloud.Store.Folders.Selected.{SameChoice}
use xcloud.Store.Folders.Report.{
  FolderReportRequest, FolderReportResponse, trimmed_report, reported_folder, report_trimmed,
  report_folder,
}

-- The tests of ReportFolder.
record Passes (req : FolderReportRequest) : Type 0 where
  from_device : (req.device_id == "") ≡ false
  placed : (req.root_path == "") ≡ false
  rooted : (not (req.storage_root == "") && not (is_client_absolute_path req.storage_root)) ≡ false

abbrev pub key : String → FolderReportRequest → String
key account_id req = folder_key account_id req.device_id req.root_path

module _ (env : Env) (now : ℕ) (account_id : String) (req : FolderReportRequest) where
  Passes-of_ok :
      (resp : FolderReportResponse) (w : World)
      → (report_trimmed env now account_id req w).0 ≡ ok resp
      → Passes req
  unfolding report_trimmed
  Passes-of_ok resp w h = ground arith

  kept :
      (folder : ClientFolder) (resp : FolderReportResponse) (w : World)
      → Passes req
      → get (key account_id req) w.state.client_folders ≡ some folder
      → (report_trimmed env now account_id req w).0 ≡ ok resp
      → SameChoice folder resp.folder
        × (get (key account_id req) (report_trimmed env now account_id req w).1.state.client_folders
            ≡ some resp.folder)
        × ((report_trimmed env now account_id req w).1.metadata
            ≡ (report_trimmed env now account_id req w).1.state)
  unfolding report_trimmed reported_folder
  kept folder resp w p found h =
      let (e, end) = save_then env _ resp _ (rw (p.from_device, p.placed, p.rooted, found) at h) in
      let same : SameChoice folder resp.folder =
        subst (λ r. SameChoice folder r.folder) e
          (record { status = refl; space_id = refl; requested = refl; reported = refl }) in
      rw (p.from_device, p.placed, p.rooted, found, end)
        (same, get-put_self _ _ _ ∙ ap (λ r. some r.folder) e, refl)

-- A client that reports a folder again does not undo what the console chose: the report that is
-- answered leaves the folder's status, its space and what was asked of the client as they were,
-- answers with the folder as it is stored from then on, and has saved it.
pub report_keeps_choice :
    (env : Env) (now : ℕ) (account_id : String) (req : FolderReportRequest) (folder : ClientFolder)
    (resp : FolderReportResponse) (w : World)
    → get (key account_id (trimmed_report req)) w.state.client_folders ≡ some folder
    → (report_folder env now account_id req w).0 ≡ ok resp
    → let after = (report_folder env now account_id req w).1 in
      SameChoice folder resp.folder
      × (get (key account_id (trimmed_report req)) after.state.client_folders ≡ some resp.folder)
      × (after.metadata ≡ after.state)
unfolding report_folder
report_keeps_choice env now account_id req folder resp w found h =
    let p = Passes-of_ok env now account_id (trimmed_report req) resp w h in
    kept env now account_id (trimmed_report req) folder resp w p found h
