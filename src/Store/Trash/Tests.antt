-- ===== src/Store/Trash/Tests.antt =====
-- Runs of the trash on a store with one tombstone and one live file.
use xcloud.Prelude.{
  String, ◌≡◌, refl, true, false, List, [], ◌∷◌, none, some, pos, keep, take, any, get, Distinct,
}
use mathlib.Core.List.{Perm}
use xcloud.Model.{FileVersion, TrashEntry, CommitResponse, ServerState, entry_deleted}
use xcloud.Result.{ok}
use xcloud.Store.World.{Exec, save, save_control}
use xcloud.Store.Keys.{file_key}
use xcloud.Store.Version.{blank_entry, with_current, versions_of}
use xcloud.Store.Delete.{write_tombstone}
use xcloud.Store.Trash.{
  prune_trash, prunes, trash_entry, collect_trash, insert_trash, sort_trash, last_file,
  safe_device_name,
}
use xcloud.Store.Trash.Listed.{IsTrashOf, LastFirst, list_trash-IsTrashOf}
use xcloud.Store.Trash.Prune.{IsPruned, SomeDue, prune_trash_exact}
use xcloud.Store.Trash.Restore.{list_limit, restore_locked, list_trash}
use xcloud.Store.Trash.RoundTrip.{restore_after_delete, IsRestored, Writes}
use xcloud.Store.Samples.{
  sample_env, sample_delete, sample_entry, sample_version, sample_state, world_of,
}

abbrev old_tombstone : FileVersion
old_tombstone = record sample_version {
  file_id = "f2";
  path = "b.txt";
  state = entry_deleted;
  deleted_state = "file";
  deleted_at = 100;
}

abbrev trash_state : ServerState
trash_state = record sample_state {
  files =
      ("u\0s\0a.txt", sample_entry)
      ∷ ("u\0s\0b.txt", with_current (blank_entry "u" "s" "f2" "b.txt") old_tombstone true 100)
      ∷ [];
}

after_a_year : get "u\0s\0b.txt" (prune_trash 31536000 trash_state).files ≡ none
unfolding prune_trash keep get
after_a_year = refl

list_run : (account_id : String) → Exec (List TrashEntry)
unfolding list_trash prune_trash prunes collect_trash insert_trash sort_trash trash_entry keep any
    save save_control
list_run account_id = list_trash sample_env 200 account_id (pos 0)

list_one : (list_run "u" (world_of trash_state)).0 ≡ ok (trash_entry old_tombstone ∷ [])
unfolding list_run
list_one = refl

restored_by : safe_device_name "-Ann B-" ≡ "Ann-B"
unfolding safe_device_name
restored_by = refl

trash_state-Distinct : Distinct trash_state.files
unfolding get
trash_state-Distinct = (refl, (refl, tt))

prune_trash_exact_example :
    ((key : String)
      → IsPruned 864100
          (get key trash_state.files)
          (get key (prune_trash 864100 trash_state).files))
    × (prunes 864100 trash_state ≡ true → SomeDue 864100 trash_state.files)
    × (prunes 864100 trash_state ≡ false → prune_trash 864100 trash_state ≡ trash_state)
prune_trash_exact_example = prune_trash_exact 864100 trash_state trash_state-Distinct

sample-Writes : Writes sample_env
sample-Writes = record { metadata = λ s. refl; control = λ s. refl }

sample_source : last_file (versions_of "f1" trash_state) ≡ some sample_version
unfolding last_file get
sample_source = refl

restore_after_delete_example :
    let deleted =
      (write_tombstone sample_env 9 "u" "s" sample_entry sample_delete "a.txt"
        (world_of trash_state)).1 in
    let (result, after) = restore_locked sample_env 99 "u" "s" "a.txt" "f1" "admin" deleted in
    (resp : CommitResponse) × (result ≡ ok resp)
    × IsRestored (file_key "u" "s" "a.txt") sample_version resp after
restore_after_delete_example =
    restore_after_delete sample_env 9 99 "u" "s" "a.txt" "admin" sample_entry sample_delete
      sample_version (world_of trash_state) sample-Writes trash_state-Distinct refl sample_source

list_trash-IsTrashOf_example :
    (found : List TrashEntry) × (trash : List TrashEntry) × ((list_trash sample_env 200 "u"
        (pos 5)
        (world_of trash_state)).0
      ≡ ok (take (list_limit (pos 5)) trash))
    × LastFirst trash
    × Perm trash found
    × IsTrashOf 200 "u" trash_state.files found
list_trash-IsTrashOf_example =
    list_trash-IsTrashOf sample_env 200 "u" (pos 5) (world_of trash_state)
