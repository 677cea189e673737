-- ===== src/Client/Apply/Edits.antt =====
-- internal/client/sync.go: applyVersion loses no local edit.
use xcloud.Prelude.{
  erase, ℕ, String, ◌≡◌, inl, inr, ◌⊎◌, true, false, ◌&&◌, List, [], ◌∷◌, ◌++◌, Option, none, some,
  ◌==◌, ℤ, pos, leb_ℤ, Dict, get, get-put_self, Bool-cases,
}
use xcloud.Model.{ChunkRef, FileVersion, LocalFileState, entry_file, entry_dir, entry_deleted}
use xcloud.Result.{Result, ok, err, disk_refused, download_not_verified, unknown_state}
use xcloud.Fileutil.{clean_rel}
use xcloud.Client.Local.{Node, file, dir, special, Remote, Engine, Device, Act}
use xcloud.Client.Local.Keeps
use xcloud.Client.Local.Keeps.{
  KeepsDisk, Moves, Reached, KeepsDisk-bind, KeepsDisk-if, KeepsDisk-pure, KeepsDisk-raise,
  KeepsDisk-call, KeepsDisk-check_context, KeepsDisk-or_report, KeepsDisk-report_success,
  KeepsDisk-on_disk, Moves-then, Moves-after, Moves-or_report,
}
use xcloud.Client.Disk.{rename, ensure_parent, replace, move_file}
use xcloud.Client.Disk.Laws.{get-ensure_parent, get-replace, get-set_time}
use xcloud.Client.Apply.Copies.{conflict_other}
use xcloud.Client.Apply.{
  conflict_local_path, has_local_divergence, known_or_zero, tombstone_entry_state, rename_if_there,
  forgiving, missing, on_disk, remember, preserve, apply_deleted, keep_local, download_chunks,
  checked_chunk, verify_written, download_version, apply_file, apply_at, apply_clean, apply_version,
  set_time_of, is_known_version,
}

module _ (R : Remote) (e : Engine) (path : String) (n : Node) where
  -- The edit is at its path, or in its conflict copy.
  abbrev AtPath : Dict Node → Type 0
  AtPath disk = get path disk ≡ some n

  abbrev Copied : Dict Node → Type 0
  Copied disk = get (conflict_local_path e path) disk ≡ some n

  Copied-remember :
      (action : String) (version : FileVersion)
      → KeepsDisk Copied (remember R e action path version)
  unfolding remember
  Copied-remember action version = search Keeps.keeps_disk_rules

  Copied-checked_chunk :
      (chunk : ChunkRef) (bytes : List ℕ) → KeepsDisk Copied (checked_chunk R e chunk bytes)
  Copied-checked_chunk chunk bytes = search Keeps.keeps_disk_rules

  Copied-download_chunks : (chunks : List ChunkRef) → KeepsDisk Copied (download_chunks R e chunks)
  unfolding download_chunks
  Copied-download_chunks [] = search Keeps.keeps_disk_rules
  Copied-download_chunks (chunk ∷ chunks) = KeepsDisk-bind _ _ (KeepsDisk-check_context e) λ _.
      KeepsDisk-bind _ _ (KeepsDisk-call (R.download_chunk chunk.hash)) λ received.
        KeepsDisk-bind _ _ (Copied-checked_chunk chunk received) λ bytes.
          KeepsDisk-bind _ _ (Copied-download_chunks chunks) λ rest. KeepsDisk-pure (bytes ++ rest)

  Copied-set_time_of :
      (version : FileVersion)
      → KeepsDisk Copied (on_disk {S = R.State} (set_time_of R e path version))
  Copied-set_time_of version = KeepsDisk-on_disk (set_time_of R e path version) λ disk h.
      elim (Bool-cases (leb_ℤ version.mod_time_unix (pos 0))) [
        | inl early ↦ rw early h
        | inr late ↦ rw late (
            get-set_time e (conflict_local_path e path) n path version.mod_time_unix disk
              (conflict_other e path) h)
      ]

  Copied-verify_written :
      (version : FileVersion) (bytes : List ℕ)
      → KeepsDisk Copied (verify_written R e path version bytes)
  unfolding verify_written
  Copied-verify_written version bytes =
      KeepsDisk-if _ _ _ (KeepsDisk-raise disk_refused)
        (KeepsDisk-if _ _ _ (KeepsDisk-raise download_not_verified) (Copied-set_time_of version))

  Copied-replace :
      (bytes : List ℕ) → KeepsDisk Copied (on_disk {S = R.State} (replace e path bytes))
  Copied-replace bytes = KeepsDisk-on_disk (replace e path bytes) λ disk h.
      get-replace e (conflict_local_path e path) n path bytes disk (conflict_other e path) h

  Copied-ensure_parent : (p : String) → KeepsDisk Copied (on_disk {S = R.State} (ensure_parent e p))
  Copied-ensure_parent p =
      KeepsDisk-on_disk (ensure_parent e p)
        λ disk h. get-ensure_parent e (conflict_local_path e path) n p disk h

  Copied-download_version :
      (version : FileVersion) → KeepsDisk Copied (download_version R e path version)
  unfolding download_version
  Copied-download_version version = KeepsDisk-bind _ _ (Copied-ensure_parent path) λ _.
      KeepsDisk-bind _ _ (Copied-download_chunks version.chunks)
        λ bytes. KeepsDisk-bind _ _ (Copied-replace bytes) λ _. Copied-verify_written version bytes

module _ (R : Remote) (e : Engine) (path : String) (bytes : List ℕ) (time : ℤ) where
  abbrev edit : Node
  edit = file bytes time

  -- The rename puts the file in its conflict copy, or fails and leaves it.
  rename-Moves :
      Moves
        (Copied R e path edit)
        (AtPath R e path edit)
        (on_disk {S = R.State} (rename_if_there e path (conflict_local_path e path)))
  rename-Moves = record {
    step = λ d h. elim (Bool-cases (e.may_change path && e.may_change copy)) [
      | inr refused ↦ unfold rename in rw refused (inr h)
      | inl allowed ↦ unfold rename in rw (allowed, h) (by_node d h (get copy d.disk))
    ];
  }
    where
      copy : String
      copy = conflict_local_path e path

      by_node :
          (d : Device R.State)
          → AtPath R e path edit d.disk
          → (o : Option Node)
          → Reached
              (Copied R e path edit)
              (AtPath R e path edit)
              (on_disk {S = R.State} (forgiving missing (move_file path copy edit o)) d)
      by_node d h (some dir) = inr h
      by_node d h none = get-put_self copy edit (erase path d.disk)
      by_node d h (some special) = get-put_self copy edit (erase path d.disk)
      by_node d h (some (file b t)) = get-put_self copy edit (erase path d.disk)

  preserve-Moves : Moves (Copied R e path edit) (AtPath R e path edit) (preserve R e path)
  unfolding preserve
  preserve-Moves =
      Moves-after _ _
        (KeepsDisk-on_disk (ensure_parent e (conflict_local_path e path))
          λ disk h. get-ensure_parent e path edit (conflict_local_path e path) disk h)
        λ _.
          Moves-then _ _ (Moves-or_report R e _ _ "conflict" path _ rename-Moves)
            λ _. KeepsDisk-report_success R e "conflict" path

  -- The edit is kept where it was or in its conflict copy.
  abbrev pub IsKept : Dict Node → Type 0
  IsKept disk = AtPath R e path edit disk ⊎ Copied R e path edit disk

  IsKept-Reached :
      {A : Type 0} (r : Result A) (d : Device R.State)
      → Reached (Copied R e path edit) (AtPath R e path edit) (r, d)
      → IsKept d.disk
  IsKept-Reached (ok a) d h = inr h
  IsKept-Reached (err x) d (inl h) = inr h
  IsKept-Reached (err x) d (inr h) = inl h

  IsKept-Moves :
      {A : Type 0} (m : Act R.State A) (d : Device R.State)
      → Moves (Copied R e path edit) (AtPath R e path edit) m
      → AtPath R e path edit d.disk
      → IsKept (m d).1.disk
  IsKept-Moves m d mm h = IsKept-Reached (m d).0 (m d).1 (mm.step d h)

  IsKept-apply_deleted :
      (version : FileVersion) (known : LocalFileState) (d : Device R.State)
      → AtPath R e path edit d.disk
      → has_local_divergence e path known (some edit) ≡ true
      → (tombstone_entry_state version known == entry_dir) ≡ false
      → IsKept (apply_deleted R e path version known d).1.disk
  unfolding apply_deleted
  IsKept-apply_deleted version known d h diverged no_dir =
      rw (no_dir, h, diverged)
        (IsKept-Moves _ d
          (Moves-then _ _ preserve-Moves λ _. Copied-remember R e path edit "delete" version) h)

  keep_local-Moves :
      (known : LocalFileState)
      → has_local_divergence e path known (some edit) ≡ true
      → Moves (Copied R e path edit) (AtPath R e path edit) (keep_local R e path known)
  keep_local-Moves known diverged = record {
    step = unfold keep_local in λ d h. rw (h, diverged) (preserve-Moves.step d h);
  }

  IsKept-apply_file :
      (version : FileVersion) (known : LocalFileState) (d : Device R.State)
      → AtPath R e path edit d.disk
      → has_local_divergence e path known (some edit) ≡ true
      → IsKept (apply_file R e path version known d).1.disk
  unfolding apply_file
  IsKept-apply_file version known d h diverged =
      IsKept-Moves _ d
        (Moves-then _ _ (keep_local-Moves known diverged) λ _.
          KeepsDisk-bind _ _
            (KeepsDisk-or_report R e "download" path _
              (Copied-download_version R e path edit version))
            λ _. Copied-remember R e path edit "download" version)
        h

  IsKept-left :
      {A : Type 0} (m : Act R.State A) (d : Device R.State)
      → KeepsDisk (AtPath R e path edit) m
      → AtPath R e path edit d.disk
      → IsKept (m d).1.disk
  IsKept-left m d km h = inl (km.step d h)

  IsKept-apply_at :
      (version : FileVersion) (known : Option LocalFileState) (d : Device R.State)
      → AtPath R e path edit d.disk
      → has_local_divergence e path (known_or_zero known) (some edit) ≡ true
      → (version.state == entry_dir) ≡ false
      → (version.state == entry_deleted
          && tombstone_entry_state version (known_or_zero known) == entry_dir)
        ≡ false
      → IsKept (apply_at R e path version known d).1.disk
  unfolding apply_at
  IsKept-apply_at version known d h diverged no_dir no_dir_deleted =
      elim (Bool-cases (version.state == entry_deleted)) [
        | inl deleted ↦ elim (Bool-cases (is_known_version known version.version_id)) [
          | inl k ↦ rw (deleted, k) (inl h)
          | inr k ↦
              rw (deleted, k)
                (IsKept-apply_deleted version (known_or_zero known) d h diverged
                  (rw deleted at no_dir_deleted))
        ]
        | inr other ↦ elim (Bool-cases (version.state == entry_file)) [
          | inl f ↦ elim (Bool-cases (is_known_version known version.version_id)) [
            | inl k ↦
                rw (other, no_dir, f, k)
                  (IsKept-left _ d (KeepsDisk-report_success R e "skip" path) h)
            | inr k ↦
                rw (other, no_dir, f, k)
                  (IsKept-apply_file version (known_or_zero known) d h diverged)
          ]
          | inr f ↦
              rw (other, no_dir, f)
                (IsKept-left {A = Unit {0}} _ d
                  (KeepsDisk-or_report R e "download" path _ (KeepsDisk-raise unknown_state)) h)
        ]
      ]

-- A local file that has diverged from what is known of its path survives a version from the server,
-- whether applying it returns or fails: it is at its path as it was, or at the path of its conflict
-- copy. The version is that of a file, of no known state or a deleted file's.
pub apply_version_keeps_edit :
    (R : Remote) (e : Engine) (version : FileVersion) (path : String) (bytes : List ℕ) (time : ℤ)
    (d : Device R.State)
    → clean_rel version.path ≡ ok path
    → get path d.disk ≡ some (file bytes time)
    → has_local_divergence e path (known_or_zero (get path d.memory.files)) (some (file bytes time))
      ≡ true
    → (version.state == entry_dir) ≡ false
    → (version.state == entry_deleted
        && tombstone_entry_state version (known_or_zero (get path d.memory.files)) == entry_dir)
      ≡ false
    → IsKept R e path bytes time (apply_version R e version d).1.disk
unfolding apply_version apply_clean
apply_version_keeps_edit R e version path bytes time d clean h diverged no_dir no_dir_deleted =
    rw clean (IsKept-apply_at R e path bytes time version _ d h diverged no_dir no_dir_deleted)
