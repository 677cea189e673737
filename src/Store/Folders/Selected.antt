-- ===== src/Store/Folders/Selected.antt =====
-- internal/server/store.go: what selecting, disabling and reporting a folder do to its selection.
use xcloud.Prelude.{
  ℕ, String, ◌≡◌, refl, sym, ◌∙◌, inl, inr, true, false, [], ◌∷◌, Option, none, some, arith, ◌==◌,
  Bool-cases, get, get-put_self, Dict, subst, ◌⊎◌,
}
use xcloud.Model.{ClientFolder, ServerState, folder_selected}
use xcloud.Result.{ok}
use xcloud.Store.World.{Env, World}
use xcloud.Store.World.Keeps.{state-save}
use xcloud.Store.Version.{space_found}
use xcloud.Store.Folders.{
  selected, is_folder, find_folder, write_folder, select_found, select_folder,
}

-- What a folder is chosen for, and what its client was asked and answered.
pub record SameChoice (before after : ClientFolder) : Type 0 where
  pub status : after.status ≡ before.status
  pub space_id : after.space_id ≡ before.space_id
  pub requested : after.children_requested ≡ before.children_requested
  pub reported : after.children_reported ≡ before.children_reported

-- The folder is selected for the space, and its client has reported its children or is asked to.
pub record IsSelectedFor (account_id folder_id space_id : String) (s : ServerState) : Type 0 where
  pub key : String
  pub folder : ClientFolder
  pub stored : get key s.client_folders ≡ some folder
  pub of_account : is_folder account_id folder_id folder ≡ true
  pub status : folder.status ≡ folder_selected
  pub space : folder.space_id ≡ space_id
  pub asked : (folder.children_reported ≡ true) ⊎ (folder.children_requested ≡ true)

find_folder-is_folder :
    (account_id folder_id : String) (folders : Dict ClientFolder) (key : String)
    (folder : ClientFolder)
    → find_folder account_id folder_id folders ≡ some (key, folder)
    → is_folder account_id folder_id folder ≡ true
unfolding find_folder
find_folder-is_folder account_id folder_id [] key folder h = cc
find_folder-is_folder account_id folder_id ((k, f) ∷ folders) key folder h =
    elim (Bool-cases (is_folder account_id folder_id f)) [
      | inl e ↦
          let same : ◌≡◌ {A = Option (String × ClientFolder)} (some (k, f)) (some (key, folder)) =
            rw e at h in
          let it : (k, f) ≡ (key, folder) = some_inj same in
          subst (λ x. is_folder account_id folder_id x.1 ≡ true) it e
      | inr e ↦ find_folder-is_folder account_id folder_id folders key folder (rw e at h)
    ]
  where
    some_inj : {A : Type 0} {a b : A} → some a ≡ some b → a ≡ b
    some_inj e = cc

module _ (env : Env) (now : ℕ) (account_id folder_id space_id : String) where
  chosen :
      (f : ClientFolder)
      → let g = selected env now account_id space_id f in
        (is_folder account_id folder_id g ≡ is_folder account_id folder_id f)
        × (g.status ≡ folder_selected)
        × (g.space_id ≡ space_id)
        × ((g.children_reported ≡ true) ⊎ (g.children_requested ≡ true))
  chosen f = elim (Bool-cases f.children_reported) [
    | inl e ↦ rw e (refl, refl, refl, inl refl)
    | inr e ↦ rw e (refl, refl, refl, inr refl)
  ]

  select_found-selects :
      (o : Option (String × ClientFolder)) (w : World)
      → o ≡ find_folder account_id folder_id w.state.client_folders
      → (select_found env now account_id space_id o w).0 ≡ ok tt
      → IsSelectedFor account_id folder_id space_id
          (select_found env now account_id space_id o w).1.state
  unfolding select_found write_folder
  select_found-selects none w e h = cc
  select_found-selects (some (key, folder)) w e h =
      let it =
        find_folder-is_folder account_id folder_id w.state.client_folders key folder (sym e) in
      let (same, status, space, asked) = chosen folder in
      rw (state-save env _) (record {
        key = key;
        folder = record (selected env now account_id space_id folder) { updated_at = now };
        stored = get-put_self _ _ _;
        of_account = same ∙ it;
        status = status;
        space = space;
        asked = asked;
      })

  -- The tests of SelectFolder.
  record Passes (w : World) : Type 0 where
    named : (folder_id == "") ≡ false
    placed : (space_id == "") ≡ false
    in_space : space_found account_id space_id w.state ≡ true

  Passes-of_ok :
      (w : World) → (select_folder env now account_id folder_id space_id w).0 ≡ ok tt → Passes w
  unfolding select_folder
  Passes-of_ok w h = ground arith

  behind_tests :
      (w : World)
      → Passes w
      → select_folder env now account_id folder_id space_id w
        ≡ select_found env now account_id space_id
            (find_folder account_id folder_id w.state.client_folders)
            w
  unfolding select_folder
  behind_tests w p = rw (p.named, p.placed, p.in_space) refl

-- A selection that succeeds has an active space, and a folder of the account with the id that was
-- asked for is then selected for this space; its client has reported its children or is asked to.
pub select_folder-IsSelectedFor :
    (env : Env) (now : ℕ) (account_id folder_id space_id : String) (w : World)
    → (select_folder env now account_id folder_id space_id w).0 ≡ ok tt
    → (space_found account_id space_id w.state ≡ true)
      × IsSelectedFor account_id folder_id space_id
          (select_folder env now account_id folder_id space_id w).1.state
select_folder-IsSelectedFor env now account_id folder_id space_id w h =
    let p = Passes-of_ok env now account_id folder_id space_id w h in
    let same = behind_tests env now account_id folder_id space_id w p in
    (
      p.in_space,
      rw same (select_found-selects env now account_id folder_id space_id _ w refl (rw same at h)),
    )
