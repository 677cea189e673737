-- ===== src/Client/Push.antt =====
-- internal/client/sync.go: scanLocal, pushLocal, uploadDir, uploadFile and syncOnce.
pub mod Verified
mod Tests
use xcloud.Prelude.{
  ℕ, String, Bool, true, false, not, ◌&&◌, ◌||◌, List, [], ◌∷◌, Option, none, some, ◌==◌,
  if◌then◌else◌, ℤ, pos, eqb_ℤ, Dict, get, map, any,
}
use xcloud.Model.{
  ChunkRef, CommitRequest, CommitResponse, DeleteRequest, LocalFileState, entry_file, entry_dir,
  entry_deleted,
}
use xcloud.Result.{Result, ok, err, disk_refused, not_exist, is_a_directory}
use xcloud.Fileutil.Chunked.{hash_file, file_chunks}
use xcloud.Client.Local.{
  Node, file, dir, special, Remote, Engine, Act, pure, lift, check_context, call, new_id, ◌>>=◌,
  ◌>>◌,
}
use xcloud.Client.Disk.{below, ensure_parent, rename}
use xcloud.Client.Memory.{set, forget}
use xcloud.Client.Apply.{known_or_zero, state_from_version, on_disk, report_success, or_report}
use xcloud.Client.Pull.{pull_remote}

-- localScanEntry; the absolute path is the root with `path` behind it. The modification time of a
-- directory is not kept on the model's disk and stands as 0.
pub record LocalScanEntry : Type 0 where
  pub path : String
  pub state : String
  pub size : ℤ
  pub mod_time_unix : ℤ
  pub hash : String
  pub chunks : List ChunkRef

abbrev reserved_below : Option String → Bool
reserved_below none = false
reserved_below (some rest) = true

-- rel == ".xcloud" || strings.HasPrefix(rel, ".xcloud/")
unfoldable pub is_reserved : String → Bool
unfolding below
is_reserved path = path == ".xcloud" || reserved_below (below ".xcloud" path)

abbrev pub dir_entry : String → LocalScanEntry
dir_entry path = record {
  path = path;
  state = entry_dir;
  size = pos 0;
  mod_time_unix = pos 0;
  hash = "";
  chunks = [];
}

abbrev pub file_entry : String → ℤ → String × List ChunkRef × ℕ → LocalScanEntry
file_entry path time (hash, chunks, size) = record {
  path = path;
  state = entry_file;
  size = pos size;
  mod_time_unix = time;
  hash = hash;
  chunks = chunks;
}

abbrev found : String → LocalScanEntry → Result (Dict LocalScanEntry) → Result (Dict LocalScanEntry)
found path entry (err e) = err e
found path entry (ok entries) = ok ((path, entry) ∷ entries)

-- One entry of the walk of scanLocal.
unfoldable pub scan_node :
    Engine → String → Node → Result (Dict LocalScanEntry) → Result (Dict LocalScanEntry)
scan_node e path dir rest = found path (dir_entry path) rest
scan_node e path special rest = rest
scan_node e path (file bytes time) rest =
    if e.may_read path
    then found path (file_entry path time (hash_file e.sha256_hex e.chunk_size bytes)) rest
    else err disk_refused

-- scanLocal
unfoldable pub scan_local : Engine → Dict Node → Result (Dict LocalScanEntry)
unfolding is_reserved scan_node
scan_local e [] = ok []
scan_local e ((path, node) ∷ disk) =
    let rest = scan_local e disk in if is_reserved path then rest else scan_node e path node rest

abbrev is_dir_known : Option LocalFileState → Bool
is_dir_known none = false
is_dir_known (some known) = known.state == entry_dir

abbrev pub is_uploaded : LocalScanEntry → LocalFileState → Bool
is_uploaded entry known =
    known.state == entry_file && known.hash == entry.hash && eqb_ℤ known.size entry.size

abbrev is_file_known : LocalScanEntry → Option LocalFileState → Bool
is_file_known entry none = false
is_file_known entry (some known) = is_uploaded entry known

-- What a commit takes from an entry of the scan and what is known of its path.
abbrev pub request_of : Engine → LocalScanEntry → LocalFileState → String → CommitRequest
request_of e entry known operation_id = record {
  operation_id = operation_id;
  device_id = e.device_id;
  root_path = e.root;
  manifest = record {
    file_id = known.file_id;
    path = entry.path;
    base_version = known.version_id;
    state = entry.state;
    size = entry.size;
    hash = entry.hash;
    chunks = entry.chunks;
    mod_time_unix = entry.mod_time_unix;
  };
}

abbrev delete_request : Engine → String → LocalFileState → String → DeleteRequest
delete_request e path known operation_id = record {
  operation_id = operation_id;
  device_id = e.device_id;
  root_path = e.root;
  path = path;
  file_id = known.file_id;
  base_version = known.version_id;
}

abbrev deleted_state_of : ℕ → String → LocalFileState → String → LocalFileState
deleted_state_of now path known version_id = record {
  path = path;
  file_id = known.file_id;
  version_id = version_id;
  state = entry_deleted;
  deleted_state = known.state;
  size = pos 0;
  hash = "";
  chunks = [];
  mod_time_unix = pos 0;
  updated_at = now;
}

abbrev hashes_of : List ChunkRef → List String
hashes_of chunks = map (λ chunk. chunk.hash) chunks

abbrev is_missing : List String → String → Bool
is_missing hashes hash = any (λ h. h == hash) hashes

abbrev readable_bytes : Engine → String → Option Node → Result (List ℕ)
readable_bytes e path none = err not_exist
readable_bytes e path (some dir) = err is_a_directory
readable_bytes e path (some special) = err disk_refused
readable_bytes e path (some (file bytes time)) =
    if e.may_read path then ok bytes else err disk_refused

abbrev is_absent : Option LocalScanEntry → Bool
is_absent none = true
is_absent (some entry) = false

module _ (R : Remote) (e : Engine) where
  abbrev upload_if : Bool → List ℕ → Act R.State (Unit {0})
  upload_if is_wanted part =
      if is_wanted then call (R.upload_chunk (e.sha256_hex part) part) else pure tt

  -- The callback of WriteFileChunks in uploadFile, on each part.
  unfoldable pub upload_parts : List String → List (List ℕ) → Act R.State (Unit {0})
  upload_parts wanted [] = pure tt
  upload_parts wanted (part ∷ parts) = do
    check_context e
    upload_if (is_missing wanted (e.sha256_hex part)) part
    upload_parts wanted parts

  -- WriteFileChunks of the local file
  unfoldable pub upload_missing : String → List String → Act R.State (Unit {0})
  upload_missing path [] d = (ok tt, d)
  upload_missing path (hash ∷ wanted) d =
      (do
        bytes ← lift (readable_bytes e path (get path d.disk))
        upload_parts (hash ∷ wanted) (file_chunks e.chunk_size bytes))
        d

  -- The local file goes where the server put its conflict copy.
  unfoldable pub move_to_conflict : String → String → Act R.State (Unit {0})
  move_to_conflict path conflict_path = do
    or_report R e "upload" path (on_disk (ensure_parent e conflict_path))
    or_report R e "upload" path (on_disk (rename e path conflict_path))
    λ d. (ok tt, (forget e path d).1)

  unfoldable pub note_commit : LocalScanEntry → String → CommitResponse → Act R.State (Unit {0})
  note_commit entry path resp = do
    or_report R e "upload" entry.path (set e path (state_from_version e.now resp.version))
    report_success R e "upload" path

  -- What uploadFile does with the answer.
  unfoldable pub settle : LocalScanEntry → CommitResponse → Act R.State (Unit {0})
  settle entry resp = do
    if resp.conflict then report_success R e "conflict" entry.path else pure tt
    if not (resp.version.path == entry.path) && not (resp.conflict_path == "")
        then move_to_conflict entry.path resp.conflict_path
        else pure tt
    note_commit entry resp.version.path resp

  -- uploadFile
  unfoldable pub upload_file : LocalScanEntry → LocalFileState → Act R.State (Unit {0})
  upload_file entry known = do
    wanted ← or_report R e "upload" entry.path (call (R.check_chunks (hashes_of entry.chunks)))
    or_report R e "upload" entry.path (upload_missing entry.path wanted)
    operation_id ← new_id e
    resp ←
        or_report R e "upload" entry.path (call (R.commit (request_of e entry known operation_id)))
    settle entry resp

  -- uploadDir
  unfoldable pub upload_dir : LocalScanEntry → LocalFileState → Act R.State (Unit {0})
  upload_dir entry known = do
    operation_id ← new_id e
    resp ←
        or_report R e "upload" entry.path (call (R.commit (request_of e entry known operation_id)))
    note_commit entry resp.version.path resp

  -- A file whose content is known and whose time may be new.
  unfoldable pub note_time : LocalScanEntry → LocalFileState → Act R.State (Unit {0})
  note_time entry known =
      if eqb_ℤ known.mod_time_unix entry.mod_time_unix
      then pure tt
      else set e entry.path
          (record known { mod_time_unix = entry.mod_time_unix; updated_at = e.now })

  -- One round of the first loop of pushLocal.
  unfoldable pub push_entry : LocalScanEntry → Option LocalFileState → Act R.State (Unit {0})
  push_entry entry known =
      if entry.state == entry_dir
      then (if is_dir_known known then pure tt else upload_dir entry (known_or_zero known))
      else if is_file_known entry known
      then note_time entry (known_or_zero known)
      else upload_file entry (known_or_zero known)

  unfoldable pub push_entries : Dict LocalScanEntry → Act R.State (Unit {0})
  push_entries [] = pure tt
  push_entries ((path, entry) ∷ entries) = do
    check_context e
    λ d. push_entry entry (get path d.memory.files) d
    push_entries entries

  -- The answer to a delete.
  unfoldable pub note_delete : String → LocalFileState → CommitResponse → Act R.State (Unit {0})
  note_delete path known resp = if not (resp.status == "ok") then pure tt else do
    or_report R e "delete" path
        (set e path (deleted_state_of e.now path known resp.version.version_id))
    report_success R e "delete" path

  unfoldable pub push_delete : String → LocalFileState → Act R.State (Unit {0})
  push_delete path known = do
    operation_id ← new_id e
    resp ← or_report R e "delete" path (call (R.delete (delete_request e path known operation_id)))
    note_delete path known resp

  abbrev pub is_gone : Dict LocalScanEntry → String → LocalFileState → Bool
  is_gone entries path known =
      (known.state == entry_file || known.state == entry_dir) && is_absent (get path entries)

  -- The second loop of pushLocal, over a snapshot of what is known.
  unfoldable pub push_deletes : Dict LocalScanEntry → Dict LocalFileState → Act R.State (Unit {0})
  push_deletes entries [] = pure tt
  push_deletes entries ((path, known) ∷ snapshot) = do
    check_context e
    if is_gone entries path known then push_delete path known else pure tt
    push_deletes entries snapshot

  unfoldable pub push_scan : Dict LocalScanEntry → Act R.State (Unit {0})
  push_scan entries = do push_entries entries; λ d. push_deletes entries d.memory.files d

  -- pushLocal
  unfoldable pub push_local : Act R.State (Unit {0})
  push_local d = (lift (scan_local e d.disk) >>= push_scan) d

  -- syncOnce
  unfoldable pub sync_once : Act R.State (Unit {0})
  sync_once = do pull_remote R e; push_local; pull_remote R e
