-- ===== src/Store/Trash.antt =====
-- internal/server/store.go: pruneTrashLocked, ListTrash and RestoreTrash.
pub mod Restore
pub mod Tombstone
pub mod Prune
pub mod RoundTrip
pub mod Listed
mod Tests
use Prim.Native.Char.{Char, code}
use xcloud.Prelude.{
  ℕ, ◌+◌, String, Bool, true, false, not, ◌&&◌, ◌||◌, List, [], ◌∷◌, Option, none, some, ℤ, pos,
  leb_ℤ, pos_part, if◌then◌else◌, ◌==◌, ltb, leb, eqb, ◌<>◌, trim_space, keep, any, length, take,
  Dict, get, map,
}
use xcloud.Model.{
  FileEntry, FileVersion, TrashEntry, RestoreRequest, CommitResponse, ServerState, entry_file,
  entry_dir, entry_deleted, trash_retention_seconds,
}
use xcloud.Result.{
  Result, ok, err, Error, sync_space_not_found, file_id_required, trash_not_found, trash_expired,
  not_restorable,
}
use xcloud.Fileutil.{clean_rel}
use xcloud.Store.World.{
  Env, World, Exec, pure, raise, lift, resume, refuse_if, get_state, modify, new_id, save, ◌>>=◌,
  ◌>>◌,
}
use xcloud.Store.Keys.{file_key}
use xcloud.Store.Conflict.{safe_device_chars}
use xcloud.Store.Events.{append_event}
use xcloud.Store.Version.{space_found, with_current, versions_of, put_entry, response}

-- The current version, if it is the tombstone of a deleted entry.
abbrev pub tombstone_in : FileEntry → Option FileVersion
tombstone_in entry = elim entry.current [
  | none ↦ none
  | some v ↦ if entry.deleted && v.state == entry_deleted then some v else none
]

abbrev pub outlived : ℕ → Option FileVersion → Bool
outlived now none = false
outlived now (some v) = ltb 0 v.deleted_at && leb (v.deleted_at + trash_retention_seconds) now

abbrev pub is_expired : ℕ → FileEntry → Bool
is_expired now entry = outlived now (tombstone_in entry)

abbrev pub stays : ℕ → String × FileEntry → Bool
stays now (key, entry) = not (is_expired now entry)

-- pruneTrashLocked: the state after it
unfoldable pub prune_trash : ℕ → ServerState → ServerState
prune_trash now s = record s { files = keep (stays now) s.files }

-- pruneTrashLocked: whether it deleted an entry
unfoldable pub prunes : ℕ → ServerState → Bool
prunes now s = any (λ (key, entry). is_expired now entry) s.files

-- trashEntryFromVersion
unfoldable pub trash_entry : FileVersion → TrashEntry
trash_entry version = record {
  account_id = version.account_id;
  space_id = version.space_id;
  file_id = version.file_id;
  path = version.path;
  version_id = version.version_id;
  size = version.size;
  hash = version.hash;
  deleted_at = version.deleted_at;
  expires_at = version.deleted_at + trash_retention_seconds;
  device_id = version.device_id;
}

abbrev pub listed : ℕ → String → FileEntry → Option FileVersion → Option TrashEntry
listed now account_id entry none = none
listed now account_id entry (some v) =
    if not (entry.account_id == account_id) || v.deleted_state == entry_dir
    then none
    else if leb (v.deleted_at + trash_retention_seconds) now
    then none
    else some (trash_entry v)

abbrev pub push {ℓ} : {A : Type ℓ} → Option A → List A → List A
push none xs = xs
push (some x) xs = x ∷ xs

-- The loop of ListTrash.
unfoldable pub collect_trash : ℕ → String → Dict FileEntry → List TrashEntry
collect_trash now account_id [] = []
collect_trash now account_id ((key, entry) ∷ files) =
    push (listed now account_id entry (tombstone_in entry)) (collect_trash now account_id files)

-- One entry before the later ones; sort.Slice, with the last deleted first. Go leaves the order of
-- entries of the same second open; here it is that of the map.
unfoldable pub insert_trash : TrashEntry → List TrashEntry → List TrashEntry
insert_trash t [] = t ∷ []
insert_trash t (u ∷ us) =
    let later = u ∷ insert_trash t us in if leb u.deleted_at t.deleted_at then t ∷ u ∷ us else later

unfoldable pub sort_trash : List TrashEntry → List TrashEntry
unfolding insert_trash
sort_trash [] = []
sort_trash (t ∷ ts) = insert_trash t (sort_trash ts)

abbrev or_else {ℓ} : {A : Type ℓ} → Option A → Option A → Option A
or_else none other = other
or_else (some x) other = some x

-- The last version of a file that is no directory and no tombstone.
unfoldable pub last_file : List FileVersion → Option FileVersion
last_file [] = none
last_file (v ∷ vs) = or_else (last_file vs) (if v.state == entry_file then some v else none)

-- What RestoreTrash restores from.
unfoldable pub restore_source : List FileVersion → FileVersion → Option FileVersion
unfolding last_file
restore_source versions current =
    or_else (last_file versions)
      (if not (current.hash == "") then some (record current { state = entry_file }) else none)

-- strings.Trim(v, "-")
unfoldable pub trim_dashes_left : String → String
trim_dashes_left String.[] = ""
trim_dashes_left (String.◌∷◌ c s) = if eqb (code c) b'-' then trim_dashes_left s else String.◌∷◌ c s

abbrev push_unless_dash : Char → String → String
push_unless_dash c String.[] = if eqb (code c) b'-' then "" else String.◌∷◌ c ""
push_unless_dash c (String.◌∷◌ d s) = String.◌∷◌ c (String.◌∷◌ d s)

unfoldable pub trim_dashes_right : String → String
trim_dashes_right String.[] = ""
trim_dashes_right (String.◌∷◌ c s) = push_unless_dash c (trim_dashes_right s)

-- safeDeviceName
unfoldable pub safe_device_name : String → String
unfolding trim_dashes_left trim_dashes_right safe_device_chars
safe_device_name v =
    let name = trim_dashes_right (trim_dashes_left (safe_device_chars v)) in
    if name == "" then "admin" else name

unfoldable pub restore_device : String → String
unfolding safe_device_name trim_space ◌<>◌
restore_device actor =
    if trim_space actor == "" then "admin" else "admin-" <> safe_device_name actor

-- space_id, or "default"
abbrev pub restore_space : RestoreRequest → String
restore_space req =
    let space_id = trim_space req.space_id in if space_id == "" then "default" else space_id

-- `_ = s.saveLocked()`: a failure is not reported.
unfoldable pub try_save : Env → Exec (Unit {0})
try_save env w = (ok tt, (save env w).1)
