-- ===== src/Client/Apply/Cursor.antt =====
-- internal/client/sync.go: applyVersion leaves the event cursor.
use xcloud.Prelude.{
  ℕ, String, ◌≡◌, refl, inl, inr, List, [], ◌∷◌, ◌++◌, Option, ◌==◌, get, Bool-cases,
}
use xcloud.Model.{ChunkRef, FileVersion, LocalFileState, entry_dir}
use xcloud.Result.{Result, ok, err}
use xcloud.Fileutil.{clean_rel}
use xcloud.Client.Local.{Remote, Engine, Device}
use xcloud.Client.Local.Cursor
use xcloud.Client.Local.Cursor.{
  cursor, KeepsCursor, KeepsCursor-bind, KeepsCursor-if, KeepsCursor-pure, KeepsCursor-raise,
  KeepsCursor-call, KeepsCursor-check_context, KeepsCursor-on_disk, KeepsCursor-or_report,
  KeepsCursor-report_success,
}
use xcloud.Client.Apply.{
  tombstone_entry_state, has_local_divergence, remember, preserve, apply_deleted, apply_dir,
  keep_local, download_chunks, checked_chunk, verify_written, download_version, apply_file,
  apply_at, apply_clean, apply_version, remove_dir_if_empty, remove_file,
}
use xcloud.Client.Disk.{ensure_parent, replace}

module _ (R : Remote) (e : Engine) (path : String) where
  remember-KeepsCursor :
      (action : String) (version : FileVersion) → KeepsCursor (remember R e action path version)
  unfolding remember
  remember-KeepsCursor action version = search Cursor.keeps_cursor_rules

  preserve-KeepsCursor : KeepsCursor (preserve R e path)
  unfolding preserve
  preserve-KeepsCursor = search Cursor.keeps_cursor_rules

  checked_chunk-KeepsCursor :
      (chunk : ChunkRef) (bytes : List ℕ) → KeepsCursor (checked_chunk R e chunk bytes)
  checked_chunk-KeepsCursor chunk bytes = search Cursor.keeps_cursor_rules

  download_chunks-KeepsCursor : (chunks : List ChunkRef) → KeepsCursor (download_chunks R e chunks)
  unfolding download_chunks
  download_chunks-KeepsCursor [] = search Cursor.keeps_cursor_rules
  download_chunks-KeepsCursor (chunk ∷ chunks) =
      KeepsCursor-bind _ _ (KeepsCursor-check_context e) λ _.
        KeepsCursor-bind _ _ (KeepsCursor-call (R.download_chunk chunk.hash)) λ received.
          KeepsCursor-bind _ _ (checked_chunk-KeepsCursor chunk received) λ bytes.
            KeepsCursor-bind _ _ (download_chunks-KeepsCursor chunks)
              λ rest. KeepsCursor-pure (bytes ++ rest)

  verify_written-KeepsCursor :
      (version : FileVersion) (bytes : List ℕ) → KeepsCursor (verify_written R e path version bytes)
  unfolding verify_written
  verify_written-KeepsCursor version bytes = search Cursor.keeps_cursor_rules

  download_version-KeepsCursor :
      (version : FileVersion) → KeepsCursor (download_version R e path version)
  unfolding download_version
  download_version-KeepsCursor version =
      KeepsCursor-bind _ _ (KeepsCursor-on_disk (ensure_parent e path)) λ _.
        KeepsCursor-bind _ _ (download_chunks-KeepsCursor version.chunks) λ bytes.
          KeepsCursor-bind _ _ (KeepsCursor-on_disk (replace e path bytes))
            λ _. verify_written-KeepsCursor version bytes

  -- The action that is chosen by what is on the disk.
  apply_deleted-KeepsCursor :
      (version : FileVersion) (known : LocalFileState)
      → KeepsCursor (apply_deleted R e path version known)
  apply_deleted-KeepsCursor version known = record {
    same =
        unfold apply_deleted in
        λ d. elim (Bool-cases (tombstone_entry_state version known == entry_dir)) [
          | inl s ↦ rw s (
              (KeepsCursor-bind _ _
                  (KeepsCursor-or_report R e "delete" path _
                    (KeepsCursor-on_disk (remove_dir_if_empty e path)))
                  λ _. remember-KeepsCursor "delete" version).same
                d)
          | inr s ↦ elim (Bool-cases (has_local_divergence e path known (get path d.disk))) [
            | inl t ↦
                rw (s, t)
                  ((KeepsCursor-bind _ _ preserve-KeepsCursor
                      λ _. remember-KeepsCursor "delete" version).same
                    d)
            | inr t ↦
                rw (s, t)
                  ((KeepsCursor-bind _ _
                      (KeepsCursor-or_report R e "delete" path _
                        (KeepsCursor-on_disk (remove_file e path)))
                      λ _. remember-KeepsCursor "delete" version).same
                    d)
          ]
        ];
  }

  keep_local-KeepsCursor : (known : LocalFileState) → KeepsCursor (keep_local R e path known)
  keep_local-KeepsCursor known = record {
    same =
        unfold keep_local in
        λ d. elim (Bool-cases (has_local_divergence e path known (get path d.disk))) [
          | inl t ↦ rw t (preserve-KeepsCursor.same d)
          | inr t ↦ rw t refl
        ];
  }

  apply_dir-KeepsCursor : (version : FileVersion) → KeepsCursor (apply_dir R e path version)
  unfolding apply_dir
  apply_dir-KeepsCursor version = search (remember-KeepsCursor, Cursor.keeps_cursor_rules)

  apply_file-KeepsCursor :
      (version : FileVersion) (known : LocalFileState)
      → KeepsCursor (apply_file R e path version known)
  unfolding apply_file
  apply_file-KeepsCursor version known = KeepsCursor-bind _ _ (keep_local-KeepsCursor known) λ _.
      KeepsCursor-bind _ _
        (KeepsCursor-or_report R e "download" path _ (download_version-KeepsCursor version))
        λ _. remember-KeepsCursor "download" version

  apply_at-KeepsCursor :
      (version : FileVersion) (known : Option LocalFileState)
      → KeepsCursor (apply_at R e path version known)
  unfolding apply_at
  apply_at-KeepsCursor version known = search (
    apply_deleted-KeepsCursor, apply_dir-KeepsCursor, apply_file-KeepsCursor,
    Cursor.keeps_cursor_rules,
  )

module _ (R : Remote) (e : Engine) (version : FileVersion) where
  apply_clean-same :
      (r : Result String) (d : Device R.State) → cursor (apply_clean R e version r d).1 ≡ cursor d
  unfolding apply_clean
  apply_clean-same (err x) d =
      (KeepsCursor-or_report R e "download" version.path _
          (KeepsCursor-raise {A = Unit {0}} x)).same
        d
  apply_clean-same (ok path) d = (apply_at-KeepsCursor R e path version _).same d

  pub apply_version-KeepsCursor : KeepsCursor (apply_version R e version)
  apply_version-KeepsCursor = record {
    same = unfold apply_version in apply_clean-same (clean_rel version.path);
  }
