-- ===== src/Client/Disk.antt =====
-- What the client uses of Go's `os`, `path/filepath` and of internal/fileutil/fileutil.go, on a disk
-- of paths relative to the root. Symbolic links are not modelled.
pub mod Laws
use xcloud.Prelude.{
  erase, ℕ, String, Bool, true, false, not, ◌&&◌, ◌||◌, List, [], ◌∷◌, Option, none, some, ◌==◌,
  if◌then◌else◌, ◌<>◌, behind, any, ℤ, pos, Dict, get, put, split,
}
use xcloud.Result.{
  Result, ok, err, Error, not_exist, not_a_directory, is_a_directory, directory_not_empty,
  disk_refused,
}
use xcloud.Client.Local.{Node, file, dir, special, Engine}

-- What is behind `path/` in a path under it.
unfoldable pub below : String → String → Option String
unfolding ◌<>◌ behind
below path key = behind (path <> "/") key

abbrev found : Option String → Bool
found none = false
found (some rest) = true

unfoldable pub has_children : String → Dict Node → Bool
unfolding any below
has_children path disk = any (λ (key, node). found (below path key)) disk

-- A step on the disk succeeds or fails, and what it did before a failure stays done.
abbrev pub DiskStep : Type 0
DiskStep = Dict Node → Result (Unit {0}) × Dict Node

abbrev remove_node : String → Option Node → DiskStep
remove_node path none disk = (err not_exist, disk)
remove_node path (some (file bytes time)) disk = (ok tt, erase path disk)
remove_node path (some special) disk = (ok tt, erase path disk)
remove_node path (some dir) disk =
    if has_children path disk then (err directory_not_empty, disk) else (ok tt, erase path disk)

-- os.Remove
unfoldable pub remove : Engine → String → DiskStep
remove e path disk =
    if e.may_change path then remove_node path (get path disk) disk else (err disk_refused, disk)

abbrev make_dir : Engine → String → Option Node → DiskStep
make_dir e path none disk =
    if e.may_change path then (ok tt, put path dir disk) else (err disk_refused, disk)
make_dir e path (some dir) disk = (ok tt, disk)
make_dir e path (some (file bytes time)) disk = (err not_a_directory, disk)
make_dir e path (some special) disk = (err not_a_directory, disk)

abbrev and_then : Result (Unit {0}) → DiskStep → DiskStep
and_then (ok done) next disk = next disk
and_then (err e) next disk = (err e, disk)

abbrev in_turn : DiskStep → DiskStep → DiskStep
in_turn first next disk = let (r, disk') = first disk in and_then r next disk'

abbrev pub longer_path : String → String → String
longer_path path segment = if path == "" then segment else path <> "/" <> segment

-- The directories of `segments`, each below the one before it; `path` is what is made so far.
unfoldable pub make_dirs : Engine → String → List String → DiskStep
unfolding ◌<>◌
make_dirs e path [] disk = (ok tt, disk)
make_dirs e path (segment ∷ segments) disk =
    in_turn (λ d. make_dir e (longer_path path segment) (get (longer_path path segment) d) d)
      (make_dirs e (longer_path path segment) segments) disk

-- os.MkdirAll below the root
unfoldable pub mkdir_all : Engine → String → DiskStep
unfolding make_dirs split
mkdir_all e path = make_dirs e "" (split 47 path)

-- All segments but the last.
abbrev pub parents : List String → List String
parents [] = []
parents (segment ∷ []) = []
parents (segment ∷ next ∷ segments) = segment ∷ parents (next ∷ segments)

-- EnsureParent
unfoldable pub ensure_parent : Engine → String → DiskStep
unfolding make_dirs split
ensure_parent e path = make_dirs e "" (parents (split 47 path))

abbrev moved_key : String → String → String → Option String → String
moved_key old new key none = if key == old then new else key
moved_key old new key (some rest) = new <> "/" <> rest

-- A directory with all that is under it.
unfoldable pub move_tree : String → String → Dict Node → Dict Node
unfolding below ◌<>◌
move_tree old new [] = []
move_tree old new ((key, node) ∷ disk) =
    (moved_key old new key (below old key), node) ∷ move_tree old new disk

abbrev pub move_file : String → String → Node → Option Node → DiskStep
move_file old new node (some dir) disk = (err is_a_directory, disk)
move_file old new node none disk = (ok tt, put new node (erase old disk))
move_file old new node (some special) disk = (ok tt, put new node (erase old disk))
move_file old new node (some (file bytes time)) disk = (ok tt, put new node (erase old disk))

abbrev move_dir : String → String → Option Node → DiskStep
move_dir old new none disk = (ok tt, move_tree old new disk)
move_dir old new (some dir) disk =
    if has_children new disk
    then (err directory_not_empty, disk)
    else (ok tt, move_tree old new (erase new disk))
move_dir old new (some special) disk = (err not_a_directory, disk)
move_dir old new (some (file bytes time)) disk = (err not_a_directory, disk)

abbrev move_node : String → String → Option Node → DiskStep
move_node old new none disk = (err not_exist, disk)
move_node old new (some (file bytes time)) disk =
    move_file old new (file bytes time) (get new disk) disk
move_node old new (some special) disk = move_file old new special (get new disk) disk
move_node old new (some dir) disk = move_dir old new (get new disk) disk

-- os.Rename, of two different paths of which none is under the other
unfoldable pub rename : Engine → String → String → DiskStep
rename e old new disk =
    if e.may_change old && e.may_change new
    then move_node old new (get old disk) disk
    else (err disk_refused, disk)

abbrev replace_node : String → Node → Option Node → DiskStep
replace_node path node (some dir) disk = (err is_a_directory, disk)
replace_node path node none disk = (ok tt, put path node disk)
replace_node path node (some special) disk = (ok tt, put path node disk)
replace_node path node (some (file old t)) disk = (ok tt, put path node disk)

-- The rename at the end of AtomicWrite, of a temporary file with the given bytes.
unfoldable pub replace : Engine → String → List ℕ → DiskStep
replace e path bytes disk =
    if e.may_change path
    then replace_node path (file bytes (pos e.now)) (get path disk) disk
    else (err disk_refused, disk)

abbrev touched : String → ℤ → Dict Node → Option Node → Dict Node
touched path time disk (some (file bytes old)) = put path (file bytes time) disk
touched path time disk (some dir) = disk
touched path time disk (some special) = disk
touched path time disk none = disk

-- os.Chtimes, whose error is dropped. The times of directories are not kept.
unfoldable pub set_time : Engine → String → ℤ → Dict Node → Dict Node
set_time e path time disk =
    if e.may_change path then touched path time disk (get path disk) else disk
