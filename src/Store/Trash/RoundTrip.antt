-- ===== src/Store/Trash/RoundTrip.antt =====
-- internal/server/store.go: RestoreTrash takes back what Delete did.
use xcloud.Prelude.{
  ℕ, ◌+◌, String, ◌≡◌, refl, ◌∙◌, inl, inr, true, false, List, [], ◌∷◌, ◌++◌, some, arith, leb,
  keep, get, Distinct, get-keep, put-Distinct, get-put_self, Bool-cases, ◌==◌,
}
use xcloud.Model.{
  FileEntry, FileVersion, DeleteRequest, CommitResponse, ServerState, trash_retention_seconds,
  entry_deleted, entry_file, entry_dir,
}
use text.Mathlib.TextPositions.{eq_refl}
use xcloud.Result.{ok}
use xcloud.Store.World.{Env, World, save, save_control}
use xcloud.Store.Events.{append_event}
use xcloud.Store.Keys.{file_key}
use xcloud.Store.Version.{with_current, versions_of, put_entry}
use xcloud.Store.Delete.{tombstone, store_tombstone, write_tombstone, finish, current_is}
use xcloud.Store.Trash.{tombstone_in, is_expired, stays, prune_trash, last_file, restore_source}
use xcloud.Store.Trash.Restore.{
  restore_locked, restore_at, restore_tombstone, restore_from, write_restored, store_restored,
}

-- A tombstone behind the versions is not restored from.
last_file-snoc :
    (vs : List FileVersion) (t : FileVersion)
    → t.state ≡ entry_deleted
    → last_file (vs ++ t ∷ []) ≡ last_file vs
unfolding last_file
last_file-snoc [] t e = rw e refl
last_file-snoc (v ∷ vs) t e = rw (last_file-snoc vs t e) refl

source_found :
    (vs : List FileVersion) (current source : FileVersion)
    → last_file vs ≡ some source
    → restore_source vs current ≡ some source
unfolding restore_source
source_found vs current source h = rw h refl

-- A tombstone that is not too old is no reason to prune.
young_stays :
    (now : ℕ) (entry : FileEntry) (t : FileVersion)
    → tombstone_in entry ≡ some t
    → leb (t.deleted_at + trash_retention_seconds) now ≡ false
    → is_expired now entry ≡ false
young_stays now entry t e h = rw e (ground arith)

-- Every write to disk succeeds.
pub record Writes (env : Env) : Type 0 where
  pub metadata : (s : ServerState) → env.metadata_writable s ≡ true
  pub control : (s : ServerState) → env.control_writable s ≡ true

-- The path lives again, with the content of `source`, and all is saved.
pub record IsRestored (key : String) (source : FileVersion) (resp : CommitResponse) (after : World)
    : Type 0 where
  pub live : resp.entry.deleted ≡ false
  pub of_file : resp.version.state ≡ entry_file
  pub size : resp.version.size ≡ source.size
  pub hash : resp.version.hash ≡ source.hash
  pub chunks : resp.version.chunks ≡ source.chunks
  pub current : resp.entry.current ≡ some resp.version
  pub stored : get key after.state.files ≡ some resp.entry
  pub in_metadata : after.metadata ≡ after.state
  pub in_control : after.control ≡ after.state

module _ (env : Env) (now : ℕ) (account_id space_id : String) where
  tombstone_deleted :
      (entry : FileEntry) (req : DeleteRequest) (path version_id : String)
      → ((tombstone env now account_id space_id entry req path version_id).state ≡ entry_deleted)
        × ((tombstone env now account_id space_id entry req path version_id).deleted_at ≡ now)
  unfolding tombstone
  tombstone_deleted entry req path version_id =
      elim (Bool-cases (current_is (λ v. v.state == entry_dir) entry)) [
        | inl e ↦ rw e (refl, refl)
        | inr e ↦ rw e (refl, refl)
      ]

  -- The run of a restore that finds all it looks for.
  IsRestored-written :
      Writes env
      → (entry : FileEntry) (path : String) (current source : FileVersion) (device_id : String)
        (w : World)
      → (resp : CommitResponse) × ((write_restored env now account_id entry space_id path current
            source device_id w).0
          ≡ ok resp)
        × IsRestored
            (file_key account_id space_id path)
            source
            resp
            (write_restored env now account_id entry space_id path current source device_id w).1
  unfolding write_restored save save_control store_restored append_event put_entry
  IsRestored-written ws entry path current source device_id w =
      rw (ws.metadata, ws.control)
        (
          _,
          refl,
          record {
            live = refl;
            of_file = refl;
            size = refl;
            hash = refl;
            chunks = refl;
            current = refl;
            stored = get-put_self _ _ _;
            in_metadata = refl;
            in_control = refl;
          },
        )

  restored :
      Writes env
      → (entry : FileEntry) (path : String) (t source : FileVersion) (device_id : String)
        (w : World)
      → Distinct w.state.files
      → get (file_key account_id space_id path) w.state.files ≡ some entry
      → tombstone_in entry ≡ some t
      → leb (t.deleted_at + trash_retention_seconds) now ≡ false
      → last_file (versions_of entry.file_id w.state) ≡ some source
      → (resp : CommitResponse) × ((restore_locked env now account_id space_id path entry.file_id
            device_id w).0
          ≡ ok resp)
        × IsRestored
            (file_key account_id space_id path)
            source
            resp
            (restore_locked env now account_id space_id path entry.file_id device_id w).1
  unfolding restore_locked restore_at restore_tombstone restore_from prune_trash
  restored ws entry path t source device_id w d found in_trash young last =
      let kept : get (file_key account_id space_id path) (keep (stays now) w.state.files)
          ≡ some entry =
        get-keep (stays now) _ w.state.files d
        ∙ rw (found, young_stays now entry t in_trash young) refl in
      rw (kept, eq_refl entry.file_id, in_trash, young, source_found _ t source last)
        (IsRestored-written ws entry path t source device_id _)

  -- The versions behind a tombstone are still found.
  last_file-tombstone :
      (entry : FileEntry) (path : String) (t source : FileVersion) (s : ServerState)
      → t.state ≡ entry_deleted
      → last_file (versions_of entry.file_id s) ≡ some source
      → last_file
          (versions_of entry.file_id (store_tombstone env now account_id space_id entry path t s))
        ≡ some source
  unfolding store_tombstone append_event put_entry
  last_file-tombstone entry path t source s e h =
      rw (get-put_self entry.file_id (versions_of entry.file_id s ++ t ∷ []) s.versions)
        (last_file-snoc (versions_of entry.file_id s) t e ∙ h)

-- A path that Delete writes a tombstone for comes back: RestoreTrash, under its lock and before the
-- retention of ten days is over, makes the last of the file's versions in the state `file` the
-- content of the path again, with its size, hash and chunks, and all is saved. Both saves are taken
-- to succeed, no key to stand twice among the files, and the file to have such a version.
pub restore_after_delete :
    (env : Env) (now later : ℕ) (account_id space_id path device_id : String) (entry : FileEntry)
    (req : DeleteRequest) (source : FileVersion) (w : World)
    → Writes env
    → Distinct w.state.files
    → leb (now + trash_retention_seconds) later ≡ false
    → last_file (versions_of entry.file_id w.state) ≡ some source
    → let deleted = (write_tombstone env now account_id space_id entry req path w).1 in
      let (result, after) =
        restore_locked env later account_id space_id path entry.file_id device_id deleted in
      (resp : CommitResponse) × (result ≡ ok resp)
      × IsRestored (file_key account_id space_id path) source resp after
unfolding write_tombstone finish store_tombstone append_event put_entry save save_control
restore_after_delete env now later account_id space_id path device_id entry req source w ws d young
      last =
    let t = tombstone env now account_id space_id entry req path (env.random_id w.issued) in
    let (state, deleted_at) =
      tombstone_deleted env now account_id space_id entry req path (env.random_id w.issued) in
    rw (ws.metadata, ws.control)
      (restored env later account_id space_id ws (with_current entry t true now) path t source
        device_id _
        (put-Distinct (file_key account_id space_id path) (with_current entry t true now)
          w.state.files d)
        (get-put_self (file_key account_id space_id path) (with_current entry t true now)
          w.state.files)
        (rw state refl) (rw deleted_at young)
        (last_file-tombstone env now account_id space_id entry path t source w.state state last))
