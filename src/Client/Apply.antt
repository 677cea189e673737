-- ===== src/Client/Apply.antt =====
-- internal/client/sync.go: applyVersion, and downloadVersion and hasLocalDivergence that it calls.
pub mod Copies
pub mod Edits
pub mod Lost
pub mod Cursor
mod Tests
use xcloud.Prelude.{
  ℕ, String, Bool, true, false, not, ◌&&◌, ◌||◌, List, [], ◌∷◌, ◌++◌, Option, none, some, ◌==◌,
  if◌then◌else◌, ◌<>◌, ℤ, pos, eqb_ℤ, leb_ℤ, length, Dict, get,
}
use xcloud.Model.{
  ChunkRef, FileVersion, LocalFileState, entry_file, entry_dir, entry_deleted,
  sync_record_status_success, sync_record_status_failed,
}
use xcloud.Result.{
  Result, ok, err, Error, not_exist, directory_not_empty, disk_refused, chunk_size_differs,
  chunk_hash_differs, download_not_verified, unknown_state,
}
use xcloud.Fileutil.{clean_rel}
use xcloud.Fileutil.Chunked.{hash_file}
use xcloud.Store.Conflict.{ext, trim_suffix, safe_device_chars}
use xcloud.Client.Local.{
  Node, file, dir, special, Remote, Engine, Device, Act, pure, raise, lift, resume, check_context,
  call, report_record, ◌>>=◌, ◌>>◌,
}
use xcloud.Client.Disk.{DiskStep, remove, mkdir_all, ensure_parent, rename, replace, set_time}
use xcloud.Client.Memory.{set}

-- syncmodel.DefaultChunkSize
abbrev pub default_chunk_size : ℕ
default_chunk_size = 4194304

abbrev pub nothing_known : LocalFileState
nothing_known = record {
  path = "";
  file_id = "";
  version_id = "";
  state = "";
  deleted_state = "";
  size = pos 0;
  hash = "";
  chunks = [];
  mod_time_unix = pos 0;
  updated_at = 0;
}

-- the value that Get returns
abbrev pub known_or_zero : Option LocalFileState → LocalFileState
known_or_zero none = nothing_known
known_or_zero (some known) = known

-- hasKnown && known.VersionID == version.VersionID
abbrev pub is_known_version : Option LocalFileState → String → Bool
is_known_version none version_id = false
is_known_version (some known) version_id = known.version_id == version_id

-- stateFromVersion
abbrev pub state_from_version : ℕ → FileVersion → LocalFileState
state_from_version now version = record {
  path = version.path;
  file_id = version.file_id;
  version_id = version.version_id;
  state = version.state;
  deleted_state = version.deleted_state;
  size = version.size;
  hash = version.hash;
  chunks = version.chunks;
  mod_time_unix = version.mod_time_unix;
  updated_at = now;
}

-- tombstoneEntryState
abbrev pub tombstone_entry_state : FileVersion → LocalFileState → String
tombstone_entry_state version known =
    if not (version.deleted_state == "") then version.deleted_state else known.state

-- The comparison at the end of hasLocalDivergence.
unfoldable pub differs : Engine → LocalFileState → List ℕ → Bool
differs e known bytes =
    let (hash, chunks, size) = hash_file e.sha256_hex default_chunk_size bytes in
    not (eqb_ℤ (pos size) known.size) || not (hash == known.hash)

abbrev diverges_as_dir : Option Node → Bool
diverges_as_dir none = false
diverges_as_dir (some dir) = false
diverges_as_dir (some (file bytes time)) = true
diverges_as_dir (some special) = true

abbrev diverges_unknown : Option Node → Bool
diverges_unknown none = false
diverges_unknown (some node) = true

abbrev diverges_as_file : Engine → String → LocalFileState → Option Node → Bool
diverges_as_file e path known none = false
diverges_as_file e path known (some dir) = true
diverges_as_file e path known (some special) = true
diverges_as_file e path known (some (file bytes time)) =
    if not (eqb_ℤ (pos (length bytes)) known.size)
    then true
    else if not (eqb_ℤ known.mod_time_unix (pos 0)) && eqb_ℤ time known.mod_time_unix
    then false
    else if not (e.may_read path)
    then true
    else differs e known bytes

-- hasLocalDivergence; os.Stat fails only where nothing is.
unfoldable pub has_local_divergence : Engine → String → LocalFileState → Option Node → Bool
has_local_divergence e path known node =
    if known.state == entry_dir
    then diverges_as_dir node
    else if not (known.state == entry_file)
    then diverges_unknown node
    else diverges_as_file e path known node

-- conflictLocalPath
unfoldable pub conflict_local_path : Engine → String → String
unfolding ◌<>◌ ext trim_suffix safe_device_chars
conflict_local_path e path =
    trim_suffix path (ext path)
    <> " (local conflict from "
    <> safe_device_chars e.device_id
    <> " at "
    <> e.time_text
    <> ")"
    <> ext path

abbrev pub missing : Error → Bool
missing not_exist = true
missing e = false

abbrev pub missing_or_full : Error → Bool
missing_or_full not_exist = true
missing_or_full directory_not_empty = true
missing_or_full e = false

abbrev forgiven : (Error → Bool) → Result (Unit {0}) → Result (Unit {0})
forgiven test (ok done) = ok done
forgiven test (err e) = if test e then ok tt else err e

-- A step whose error is passed over where the test says so.
abbrev pub forgiving : (Error → Bool) → DiskStep → DiskStep
forgiving test step disk = let (r, disk') = step disk in (forgiven test r, disk')

-- os.Remove where a missing file is no error, and removeDirIfEmpty where a directory with entries
-- is none either
abbrev pub remove_file : Engine → String → DiskStep
remove_file e path = forgiving missing (remove e path)

abbrev pub remove_dir_if_empty : Engine → String → DiskStep
remove_dir_if_empty e path = forgiving missing_or_full (remove e path)

abbrev pub rename_if_there : Engine → String → String → DiskStep
rename_if_there e old new = forgiving missing (rename e old new)

module _ {S : Type 0} where
  abbrev on_device : Device S → Result (Unit {0}) × Dict Node → Result (Unit {0}) × Device S
  on_device d (r, disk) = (r, record d { disk = disk })

  abbrev pub on_disk : DiskStep → Act S (Unit {0})
  on_disk step d = on_device d (step d.disk)

module _ (R : Remote) (e : Engine) where
  abbrev pub report_success : String → String → Act R.State (Unit {0})
  report_success action path d =
      (ok tt, report_record R e action sync_record_status_success path none d)

  abbrev pub failed :
      {A : Type 0} → String → String → Result A × Device R.State → Result A × Device R.State
  failed action path (ok a, d) = (ok a, d)
  failed action path (err x, d) =
      (err x, report_record R e action sync_record_status_failed path (some x) d)

  -- A step whose failure is reported.
  abbrev pub or_report : {A : Type 0} → String → String → Act R.State A → Act R.State A
  or_report action path m d = failed action path (m d)

  -- e.state.Set(rel, stateFromVersion(version)), with the reports behind it
  unfoldable pub remember : String → String → FileVersion → Act R.State (Unit {0})
  remember action path version = do
    or_report action path (set e path (state_from_version e.now version))
    report_success action path

  -- The local file is moved out of the way.
  unfoldable pub preserve : String → Act R.State (Unit {0})
  preserve path = do
    on_disk (ensure_parent e (conflict_local_path e path))
    or_report "conflict" path (on_disk (rename_if_there e path (conflict_local_path e path)))
    report_success "conflict" path

  unfoldable pub apply_deleted : String → FileVersion → LocalFileState → Act R.State (Unit {0})
  apply_deleted path version known d =
      if tombstone_entry_state version known == entry_dir
      then (or_report "delete" path (on_disk (remove_dir_if_empty e path))
            >> remember "delete" path version)
          d
      else if has_local_divergence e path known (get path d.disk)
      then (preserve path >> remember "delete" path version) d
      else (or_report "delete" path (on_disk (remove_file e path))
            >> remember "delete" path version)
          d

  abbrev pub set_time_of : String → FileVersion → DiskStep
  set_time_of path version disk = (
    ok tt,
    if leb_ℤ version.mod_time_unix (pos 0)
        then disk
        else set_time e path version.mod_time_unix disk,
  )

  unfoldable pub apply_dir : String → FileVersion → Act R.State (Unit {0})
  apply_dir path version = do
    or_report "download" path (on_disk (mkdir_all e path))
    on_disk (set_time_of path version)
    remember "download" path version

  abbrev pub checked_chunk : ChunkRef → List ℕ → Act R.State (List ℕ)
  checked_chunk chunk bytes =
      if not (eqb_ℤ (pos (length bytes)) chunk.size)
      then raise chunk_size_differs
      else if not (e.sha256_hex bytes == chunk.hash)
      then raise chunk_hash_differs
      else pure bytes

  -- The loop of downloadVersion: all that is written to the temporary file.
  unfoldable pub download_chunks : List ChunkRef → Act R.State (List ℕ)
  download_chunks [] = pure []
  download_chunks (chunk ∷ chunks) = do
    check_context e
    received ← call (R.download_chunk chunk.hash)
    bytes ← checked_chunk chunk received
    rest ← download_chunks chunks
    pure (bytes ++ rest)

  abbrev content_differs : FileVersion → String × List ChunkRef × ℕ → Bool
  content_differs version (hash, chunks, size) =
      not (hash == version.hash) || not (eqb_ℤ (pos size) version.size)

  -- HashFile of the written file, and the comparison with the version.
  unfoldable pub verify_written : String → FileVersion → List ℕ → Act R.State (Unit {0})
  verify_written path version bytes =
      if not (e.may_read path)
      then raise disk_refused
      else if content_differs version (hash_file e.sha256_hex e.chunk_size bytes)
      then raise download_not_verified
      else on_disk (set_time_of path version)

  -- downloadVersion
  unfoldable pub download_version : String → FileVersion → Act R.State (Unit {0})
  download_version path version = do
    on_disk (ensure_parent e path)
    bytes ← download_chunks version.chunks
    on_disk (replace e path bytes)
    verify_written path version bytes

  unfoldable pub keep_local : String → LocalFileState → Act R.State (Unit {0})
  keep_local path known d =
      if has_local_divergence e path known (get path d.disk) then preserve path d else (ok tt, d)

  unfoldable pub apply_file : String → FileVersion → LocalFileState → Act R.State (Unit {0})
  apply_file path version known = do
    keep_local path known
    or_report "download" path (download_version path version)
    remember "download" path version

  unfoldable pub apply_at : String → FileVersion → Option LocalFileState → Act R.State (Unit {0})
  apply_at path version known =
      if version.state == entry_deleted
      then (if is_known_version known version.version_id
          then pure tt
          else apply_deleted path version (known_or_zero known))
      else if version.state == entry_dir
      then (if is_known_version known version.version_id
          then report_success "skip" path
          else apply_dir path version)
      else if version.state == entry_file
      then (if is_known_version known version.version_id
          then report_success "skip" path
          else apply_file path version (known_or_zero known))
      else or_report "download" path (raise unknown_state)

  unfoldable pub apply_clean : FileVersion → Result String → Act R.State (Unit {0})
  apply_clean version (err x) d = or_report "download" version.path (raise x) d
  apply_clean version (ok path) d = apply_at path version (get path d.memory.files) d

  -- applyVersion
  unfoldable pub apply_version : FileVersion → Act R.State (Unit {0})
  apply_version version = apply_clean version (clean_rel version.path)
