-- ===== src/Store/Commit/Stale.antt =====
-- internal/server/store.go: commitEntryLocked with a base version that is not the current one.
use xcloud.Prelude.{
  ℕ, String, ◌≡◌, ◌≢◌, refl, sym, ap, subst, inl, inr, Bool, true, false, not, ◌&&◌, List, [], ◌∷◌,
  Option, none, some, arith, ◌==◌, eq_iff, any, Dict, get, put, get-put, Bool-cases,
}
use xcloud.Model.{FileEntry, FileVersion, ChunkRef, CommitRequest, ServerState, entry_file}
use xcloud.Result.{ok}
use xcloud.Store.World.{Env, World}
use xcloud.Store.Keys.{file_key}
use xcloud.Store.Keys.Injective.{file_key-path_inj}
use xcloud.Store.Conflict.{path_exists, next_conflict_path}
use xcloud.Store.Conflict.Fresh.{next_conflict_path_free}
use xcloud.Store.Events.{append_event}
use xcloud.Store.Version.{with_current, count_chunks, put_entry}
use xcloud.Store.Commit.{
  Target, same_dir, is_stale, add_entry, or_add, find_entry, conflict_target, choose_target,
  store_version, write_version, commit_version, commit_over, commit_found, commit_entry,
}

files-count_chunks :
    (account_id : String) (chunks : List ChunkRef) (s : ServerState)
    → (count_chunks account_id chunks s).files ≡ s.files
unfolding count_chunks
files-count_chunks account_id [] s = refl
files-count_chunks account_id (chunk ∷ chunks) s = files-count_chunks account_id chunks _

pub files-store_version :
    (env : Env) (now : ℕ) (account_id space_id : String) (target : Target) (version : FileVersion)
    (s : ServerState)
    → (store_version env now account_id space_id target version s).files
      ≡ put
          (file_key account_id space_id target.path)
          (with_current target.entry version false now)
          s.files
unfolding store_version append_event
files-store_version env now account_id space_id target version s =
    elim (Bool-cases (version.state == entry_file)) [
      | inl e ↦ rw e (unfold put_entry in files-count_chunks account_id version.chunks _)
      | inr e ↦ rw e (unfold put_entry in refl)
    ]

path_exists_of_get :
    (files : Dict FileEntry) (key : String) (entry : FileEntry)
    → get key files ≡ some entry
    → path_exists files entry.path ≡ true
unfolding get path_exists any
path_exists_of_get [] key entry h = cc
path_exists_of_get ((k, e) ∷ files) key entry h =
    ground (arith, path_exists_of_get files key entry, eq_iff e.path entry.path)

-- The conflict path is no path of an entry, so it has another key.
pub aside_ne :
    (files : Dict FileEntry) (account_id space_id device_id time : String) (entry : FileEntry)
    → get (file_key account_id space_id entry.path) files ≡ some entry
    → file_key account_id space_id (next_conflict_path files entry.path device_id time)
      ≢ file_key account_id space_id entry.path
aside_ne files account_id space_id device_id time entry h e =
    let same = file_key-path_inj account_id space_id _ entry.path e in
    cc (
      next_conflict_path_free files entry.path device_id time,
      path_exists_of_get files _ entry h,
      ap (path_exists files) same,
    )

module _ (env : Env) (now : ℕ) (account_id space_id : String) (req : CommitRequest)
    (path state : String) (entry : FileEntry) where
  find_entry_found :
      (w : World)
      → get (file_key account_id space_id path) w.state.files ≡ some entry
      → find_entry env now account_id space_id path w ≡ (ok entry, w)
  unfolding find_entry or_add
  find_entry_found w h = rw h

  choose_target_stale :
      is_stale req.manifest.base_version entry ≡ true
      → choose_target env now account_id space_id entry path req
        ≡ conflict_target env now account_id space_id path req.device_id
  unfolding choose_target
  choose_target_stale h = rw h

  -- Both writes of a stale commit are under the key of the conflict path.
  files-commit_version :
      (w : World)
      → is_stale req.manifest.base_version entry ≡ true
      → (blank : FileEntry) × (written : FileEntry) × ((commit_version env now account_id space_id
            entry req path state w).1.state.files
          ≡ put
              (file_key account_id space_id
                (next_conflict_path w.state.files path req.device_id (env.format_time now)))
              written
              (put
                (file_key account_id space_id
                  (next_conflict_path w.state.files path req.device_id (env.format_time now)))
                blank
                w.state.files))
  unfolding commit_version
  files-commit_version w h = rw (choose_target_stale h) (
      unfold conflict_target add_entry write_version in
      (_, _, files-store_version env now account_id space_id _ _ _))

  commit_entry_found :
      (w : World)
      → get (file_key account_id space_id path) w.state.files ≡ some entry
      → commit_entry env now account_id space_id req path state w
        ≡ commit_found env now account_id space_id req path state entry w
  unfolding commit_entry
  commit_entry_found w h = rw (find_entry_found w h)

  abbrev mismatched : Bool
  mismatched = not (req.manifest.file_id == "") && not (entry.file_id == req.manifest.file_id)

  module _ (w : World) (stored : get (file_key account_id space_id path) w.state.files ≡ some entry)
      (placed : entry.path ≡ path) (stale : is_stale req.manifest.base_version entry ≡ true) where
    kept_by_version :
        get
          (file_key account_id space_id path)
          (commit_version env now account_id space_id entry req path state w).1.state.files
        ≡ some entry
    kept_by_version =
        let (blank, written, e) = files-commit_version w stale in
        let aside =
          file_key account_id space_id
            (next_conflict_path w.state.files path req.device_id (env.format_time now)) in
        let key = file_key account_id space_id path in
        let elsewhere : aside ≢ key =
          subst
            (λ p.
              file_key account_id space_id
                (next_conflict_path w.state.files p req.device_id (env.format_time now))
              ≢ file_key account_id space_id p)
            placed
            (aside_ne w.state.files account_id space_id req.device_id (env.format_time now) entry (
              subst (λ p. get (file_key account_id space_id p) w.state.files ≡ some entry)
                (sym placed) stored)) in
        rw e (
          ground (
            arith,
            get-put aside key written (put aside blank w.state.files),
            get-put aside key blank w.state.files,
            eq_iff aside key,
          ))

    kept_by_over :
        (o : Option FileVersion)
        → get
            (file_key account_id space_id path)
            (commit_over env now account_id space_id o entry req path state w).1.state.files
          ≡ some entry
    unfolding commit_over
    kept_by_over none = kept_by_version
    kept_by_over (some current) = stored

    kept_by_found :
        get
          (file_key account_id space_id path)
          (commit_found env now account_id space_id req path state entry w).1.state.files
        ≡ some entry
    unfolding commit_found
    kept_by_found = elim (Bool-cases mismatched) [
      | inl e ↦ rw e stored
      | inr e ↦ rw e (kept_by_over (same_dir state entry))
    ]

    -- A commit whose base version is not the current version of the entry at its path leaves that
    -- entry as it was, whether the commit is refused, is answered or makes a conflict copy.
    pub stale_commit_keeps :
        get
          (file_key account_id space_id path)
          (commit_entry env now account_id space_id req path state w).1.state.files
        ≡ some entry
    stale_commit_keeps = rw (commit_entry_found w stored) kept_by_found
