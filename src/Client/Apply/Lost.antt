-- ===== src/Client/Apply/Lost.antt =====
-- internal/client/sync.go: what applyVersion does to a file where a directory was deleted.
use xcloud.Prelude.{
  ℕ, String, ◌≡◌, refl, true, false, List, none, some, ◌==◌, ℤ, Dict, get, get-erase, if◌then◌else◌,
}
use xcloud.Model.{FileVersion, entry_dir, entry_deleted}
use xcloud.Result.{ok}
use xcloud.Fileutil.{clean_rel}
use xcloud.Client.Local.{Node, file, Remote, Engine, Device, ◌>>◌}
use xcloud.Client.Local.Keeps
use xcloud.Client.Local.Keeps.{KeepsDisk}
use xcloud.Client.Disk.{remove}
use xcloud.Client.Apply.{
  known_or_zero, is_known_version, tombstone_entry_state, remember, apply_deleted, apply_at,
  apply_clean, apply_version, remove_dir_if_empty, or_report, on_disk,
}

module _ (R : Remote) (e : Engine) (path : String) (before : Dict Node) where
  -- The disk is the one before without what stood at the path.
  abbrev Gone : Dict Node → Type 0
  Gone disk = (at : String) → get at disk ≡ (if path == at then none else get at before)

  Gone-remember :
      (action : String) (version : FileVersion) → KeepsDisk Gone (remember R e action path version)
  unfolding remember
  Gone-remember action version = search Keeps.keeps_disk_rules

  Gone-behind_remove :
      (bytes : List ℕ) (time : ℤ) (version : FileVersion) (d : Device R.State)
      → d.disk ≡ before
      → get path d.disk ≡ some (file bytes time)
      → e.may_change path ≡ true
      → Gone
          ((or_report R e "delete" path (on_disk (remove_dir_if_empty e path))
              >> remember R e "delete" path version)
            d).1.disk
  unfolding remove
  Gone-behind_remove bytes time version d same h may =
      rw (may, h) ((Gone-remember "delete" version).step _ λ at. rw same (get-erase path at before))

-- A tombstone of a directory that is not known yet removes the file that a user put at its path in
-- the meantime, where the path may be changed, and leaves the disk at every other path as it is: so
-- it makes no conflict copy.
pub dir_tombstone_removes_file :
    (R : Remote) (e : Engine) (version : FileVersion) (path : String) (bytes : List ℕ) (time : ℤ)
    (d : Device R.State)
    → clean_rel version.path ≡ ok path
    → get path d.disk ≡ some (file bytes time)
    → e.may_change path ≡ true
    → (version.state == entry_deleted) ≡ true
    → is_known_version (get path d.memory.files) version.version_id ≡ false
    → (tombstone_entry_state version (known_or_zero (get path d.memory.files)) == entry_dir) ≡ true
    → (at : String)
    → get at (apply_version R e version d).1.disk ≡ (if path == at then none else get at d.disk)
unfolding apply_version apply_clean apply_at apply_deleted
dir_tombstone_removes_file R e version path bytes time d clean h may deleted fresh of_dir at =
    rw (clean, deleted, fresh, of_dir)
      (Gone-behind_remove R e path d.disk bytes time version d refl h may at)
