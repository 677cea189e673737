-- ===== src/Store/Commit/Stored.antt =====
-- internal/server/store.go: what a successful commitEntryLocked leaves in the store.
use xcloud.Prelude.{
  ℕ, String, ◌≡◌, refl, subst, inl, inr, false, not, ◌&&◌, Option, none, some, arith, if◌then◌else◌,
  ◌==◌, eq_iff, get, get-put_self, Bool-cases,
}
use xcloud.Model.{FileEntry, FileVersion, CommitRequest, CommitResponse, ServerState, entry_dir}
use xcloud.Result.{Result, ok, ok_inj}
use xcloud.Store.World.{Env, World, ◌>>=◌}
use xcloud.Store.Keys.{file_key}
use xcloud.Store.Commit.{
  Target, same_dir, is_stale, add_entry, or_add, find_entry, conflict_target, choose_target,
  new_version, store_version, write_version, commit_version, commit_over, commit_found,
  commit_entry,
}
use xcloud.Store.Commit.Stale.{files-store_version}

-- Where the answer says that its entry is.
abbrev pub answered_path : String → CommitResponse → String
answered_path path resp = if resp.conflict then resp.conflict_path else path

-- The store holds the entry of the answer, live and with the version of the answer.
pub record IsStored (account_id space_id path state : String) (resp : CommitResponse)
    (s : ServerState) : Type 0 where
  pub held : get (file_key account_id space_id (answered_path path resp)) s.files ≡ some resp.entry
  pub current : resp.entry.current ≡ some resp.version
  pub live : resp.entry.deleted ≡ false
  pub as_asked : resp.version.state ≡ state

module _ (env : Env) (now : ℕ) (account_id space_id : String) (req : CommitRequest)
    (path state : String) (resp : CommitResponse) where
  abbrev pub Lands : Result CommitResponse × World → Type 0
  Lands r = r.0 ≡ ok resp → IsStored account_id space_id path state resp r.1.state

  Lands-written :
      (target : Target) (w : World)
      → target.path ≡ (if target.conflict then target.conflict_path else path)
      → Lands (write_version env now account_id space_id target req state w)
  unfolding write_version
  Lands-written target w at h =
      let version =
        new_version env now account_id space_id target req state (env.random_id w.issued) in
      subst
        (λ r.
          IsStored account_id space_id path state r
            (store_version env now account_id space_id target version w.state))
        (ok_inj h)
        (record {
          held =
              rw (files-store_version env now account_id space_id target version w.state, at)
                (get-put_self _ _ w.state.files);
          current = refl;
          live = refl;
          as_asked = refl;
        })

  Lands-version :
      (entry : FileEntry) (w : World)
      → Lands (commit_version env now account_id space_id entry req path state w)
  unfolding commit_version choose_target conflict_target add_entry
  Lands-version entry w = elim (Bool-cases (is_stale req.manifest.base_version entry)) [
    | inl e ↦ rw e (Lands-written _ _ refl)
    | inr e ↦ rw e (Lands-written _ _ refl)
  ]

  same_dir_lem :
      (entry : FileEntry) (v : FileVersion)
      → same_dir state entry ≡ some v
      → (entry.current ≡ some v) × (entry.deleted ≡ false) × (v.state ≡ state)
  same_dir_lem entry v h = ground (
    arith,
    eq_iff state entry_dir,
    λ (u : FileVersion). eq_iff u.state entry_dir,
    eq_iff v.state entry_dir,
  )

  Lands-over :
      (entry : FileEntry) (w : World)
      → get (file_key account_id space_id path) w.state.files ≡ some entry
      → (o : Option FileVersion) → same_dir state entry ≡ o
      → Lands (commit_over env now account_id space_id o entry req path state w)
  unfolding commit_over
  Lands-over entry w held none e h = Lands-version entry w h
  Lands-over entry w held (some v) e h =
      let (current, live, state_eq) = same_dir_lem entry v e in
      subst (λ r. IsStored account_id space_id path state r w.state) (ok_inj h)
        (record { held = held; current = current; live = live; as_asked = state_eq })

  Lands-found :
      (entry : FileEntry) (w : World)
      → get (file_key account_id space_id path) w.state.files ≡ some entry
      → Lands (commit_found env now account_id space_id req path state entry w)
  unfolding commit_found
  Lands-found entry w held =
      elim (Bool-cases
        (not (req.manifest.file_id == "") && not (entry.file_id == req.manifest.file_id))) [
          | inl e ↦ rw e (λ h. cc)
          | inr e ↦ rw e (Lands-over entry w held (same_dir state entry) refl)
        ]

  Lands-or_add :
      (o : Option FileEntry) (w : World)
      → get (file_key account_id space_id path) w.state.files ≡ o
      → Lands (
          (or_add env now account_id space_id o path
              >>= commit_found env now account_id space_id req path state)
            w)
  unfolding or_add add_entry
  Lands-or_add none w e = Lands-found _ _ (get-put_self _ _ w.state.files)
  Lands-or_add (some entry) w e = Lands-found entry w e

-- A commit that succeeds, by writing a version, by making a conflict copy or because the directory
-- is there already, leaves in the store the live entry that it answers, at the path or the conflict
-- path of the answer, with the answered version, of the state asked for, as its current one.
pub commit_entry-IsStored :
    (env : Env) (now : ℕ) (account_id space_id : String) (req : CommitRequest) (path state : String)
    (resp : CommitResponse) (w : World)
    → (commit_entry env now account_id space_id req path state w).0 ≡ ok resp
    → IsStored account_id space_id path state resp
        (commit_entry env now account_id space_id req path state w).1.state
unfolding commit_entry find_entry
commit_entry-IsStored env now account_id space_id req path state resp w =
    Lands-or_add env now account_id space_id req path state resp
      (get (file_key account_id space_id path) w.state.files) w refl
