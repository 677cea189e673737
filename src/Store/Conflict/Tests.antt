-- ===== src/Store/Conflict/Tests.antt =====
-- Runs of nextConflictPathLocked.
use xcloud.Prelude.{◌≡◌, refl, true, false, none, [], ◌∷◌, String, Dict}
use xcloud.Model.{FileEntry}
use xcloud.Store.Conflict.{next_conflict_path, conflict_path_run, path_exists}
use xcloud.Store.Conflict.Fresh.{next_conflict_path_free}

abbrev entry_at : String → FileEntry
entry_at path = record {
  account_id = "u";
  space_id = "default";
  file_id = "f";
  path = path;
  current = none;
  deleted = true;
  latest_version = "";
  updated_at = 0;
}

abbrev one_copy : Dict FileEntry
one_copy = ("a", entry_at "d.x/a.txt") ∷ ("b", entry_at "d.x/a (conflict from my-pc at T).txt") ∷ []

conflict_path_second :
    next_conflict_path one_copy "d.x/a.txt" "my pc" "T" ≡ "d.x/a (conflict 2 from my-pc at T).txt"
unfolding conflict_path_run
conflict_path_second = refl

next_conflict_path_free_example :
    path_exists one_copy (next_conflict_path one_copy "d.x/a.txt" "my pc" "T") ≡ false
next_conflict_path_free_example = next_conflict_path_free one_copy "d.x/a.txt" "my pc" "T"
