-- ===== src/Store/Accounts/Others.antt =====
-- internal/server/store.go: what an operation on one account leaves of the others.
pub mod Restored
pub mod Created
use xcloud.Prelude.{
  ℕ, zero, suc, String, ◌≡◌, refl, ◌∙◌, ap, inl, inr, Bool, false, not, Option, none, some, ◌==◌, ℤ,
  get, get-put, Bool-cases, trim_space, leb, ltb, length, utf8, take, ◌+◌,
}
use xcloud.Model.{
  Account, SyncSettings, SyncSpace, ClientDevice, ServerState, RestoreRequest, FileEntry,
  FileVersion, trash_retention_seconds,
}
use xcloud.Result.{
  ok, err, Error, trash_not_found, trash_expired, new_password_short, device_id_required,
  storage_root_required, storage_root_not_absolute, file_id_required, sync_space_not_found,
}
use xcloud.Fileutil.{clean_rel}
use xcloud.Store.World.{Env, modify}
use xcloud.Store.World.Keeps
use xcloud.Store.World.Keeps.{
  Keeps, Keeps-bind, Keeps-if, Keeps-pure, Keeps-raise, Keeps-lift, Keeps-modify, Keeps-get_state,
  Keeps-new_id, Keeps-refuse_if, Keeps-save, state-save,
}
use xcloud.Store.Accounts.{
  put_account, write_account, update_account, set_sync_settings, change_verified, change_password,
  reset_found, reset_sync_token, new_token, get_account, hash_secret,
}
use xcloud.Store.Spaces.{
  is_taken, put_space, space_of, drawn_unless, free_id, write_space, create_space, activate,
  set_space_active,
}
use xcloud.Store.Devices.{set_root, set_client_storage_root}
use xcloud.Store.Trash.{
  prune_trash, prunes, try_save, tombstone_in, restore_source, sort_trash, collect_trash,
  restore_space, restore_device,
}
use xcloud.Store.Keys.{device_key, file_key}
use xcloud.Store.ClientPath.{is_client_absolute_path}
use xcloud.Store.Trash.Restore.{
  list_limit, list_trash, refuse_restore, restored_version, store_restored, write_restored,
  restore_from, restore_tombstone, restore_at, restore_locked, restore_trash,
}
use xcloud.Store.Version.{versions_of, put_entry, space_found, with_current, response}
use xcloud.Store.Events.{append_event}
use xcloud.Store.Lists.{sweep, list_spaces}

module _ (b : String) (held : Option Account) where
  -- The account `b` is as it was.
  pub record Holds (s : ServerState) : Type 0 where
    pub same : get b s.accounts ≡ held

  pub Holds-same : (s t : ServerState) → t.accounts ≡ s.accounts → Holds s → Holds t
  Holds-same s t e h = record { same = ap (get b) e ∙ h.same }

  pub Holds-try_save : (env : Env) → Keeps Holds (try_save env)
  Holds-try_save env = record { step = unfold try_save in λ w h. rw (state-save env w) h }

  pub Holds-sweep : (env : Env) (now : ℕ) → Keeps Holds (sweep env now)
  Holds-sweep env now = record {
    step =
        unfold sweep prune_trash try_save in
        λ w h. elim (Bool-cases (prunes now w.state)) [
          | inl e ↦ rw e (
              rw (state-save env (record w { state = prune_trash now w.state }))
                (Holds-same w.state (prune_trash now w.state) (unfold prune_trash in refl) h))
          | inr e ↦ rw e h
        ];
  }

  pub Holds-list_spaces :
      (env : Env) (now : ℕ) (account_id : String) → Keeps Holds (list_spaces env now account_id)
  unfolding list_spaces
  Holds-list_spaces env now account_id = search (Holds-sweep, Keeps.keeps_rules)

  -- A change of the state that is none of its accounts.
  pub Holds-modify :
      (f : ServerState → ServerState)
      → ((s : ServerState) → (f s).accounts ≡ s.accounts)
      → Keeps Holds (modify f)
  Holds-modify f same = Keeps-modify f λ s. Holds-same s (f s) (same s)

  pub Holds-list_trash :
      (env : Env) (now : ℕ) (account_id : String) (limit : ℤ)
      → Keeps Holds (list_trash env now account_id limit)
  unfolding list_trash
  Holds-list_trash env now account_id limit = Keeps-bind _ _ Keeps-get_state λ s.
      Keeps-bind _ _ (Holds-modify (prune_trash now) (unfold prune_trash in λ s. refl)) λ _.
        Keeps-bind _ _ (Keeps-if (prunes now s) _ _ (Holds-try_save env) (Keeps-pure tt)) λ _.
          Keeps-bind _ _ Keeps-get_state λ t.
            Keeps-pure (take (list_limit limit) (sort_trash (collect_trash now account_id t.files)))

  pub Holds-put_other :
      (a : String) (account : Account) (s : ServerState)
      → (a == b) ≡ false
      → Holds s
      → Holds (put_account a account s)
  Holds-put_other a account s other h = record {
    same = get-put a b account s.accounts ∙ rw other h.same;
  }

  module _ (env : Env) (now : ℕ) (a : String) (other : (a == b) ≡ false) where
    Holds-write_account : (account : Account) → Keeps Holds (write_account env now a account)
    unfolding write_account
    Holds-write_account account =
        Keeps-bind _ _
          (Keeps-modify (put_account a (record account { updated_at = now }))
            λ s. Holds-put_other a _ s other)
          λ _. Keeps-save env

    Holds-update_account :
        (f : Account → Account) (o : Option Account) → Keeps Holds (update_account env now a f o)
    unfolding update_account
    Holds-update_account f none = Keeps-raise _
    Holds-update_account f (some account) = Holds-write_account (f account)

    pub Holds-set_sync_settings :
        (settings : SyncSettings) → Keeps Holds (set_sync_settings env now a settings)
    Holds-set_sync_settings settings = record {
      step =
          unfold set_sync_settings in
          λ w h. (Holds-update_account _ (get_account a w.state)).step w h;
    }

    Holds-change_verified :
        (current new : String) (o : Option Account)
        → Keeps Holds (change_verified env now a current new o)
    unfolding change_verified
    Holds-change_verified current new none = Keeps-raise _
    Holds-change_verified current new (some account) =
        Keeps-if _ _ _ (Keeps-raise _) (Holds-write_account _)

    pub Holds-change_password :
        (current new : String) → Keeps Holds (change_password env now a current new)
    unfolding change_password
    Holds-change_password current new =
        Keeps-bind _ _ (Keeps-refuse_if (ltb (length (utf8 new)) 8) new_password_short) λ _. changed
      where
        changed : Keeps Holds (λ w. change_verified env now a current new (get_account a w.state) w)
        changed = record {
          step = λ w. (Holds-change_verified current new (get_account a w.state)).step w;
        }

    Holds-new_token : Keeps Holds (new_token env)
    Holds-new_token = record { step = unfold new_token in λ w. Holds-same w.state _ refl }

    Holds-reset_found : (o : Option Account) → Keeps Holds (reset_found env now a o)
    unfolding reset_found
    Holds-reset_found none = Keeps-raise _
    Holds-reset_found (some account) = Keeps-bind _ _ Holds-new_token λ token.
        Keeps-bind _ _
          (Holds-write_account (record account { sync_token_hash = hash_secret env token }))
          λ _. Keeps-pure token

    pub Holds-reset_sync_token : Keeps Holds (reset_sync_token env now a)
    Holds-reset_sync_token = record {
      step =
          unfold reset_sync_token in λ w h. (Holds-reset_found (get a w.state.accounts)).step w h;
    }

  module _ (env : Env) (now : ℕ) (a : String) where
    Holds-free_id : (n : ℕ) (id : String) → Keeps Holds (free_id env now a n id)
    unfolding free_id
    Holds-free_id zero id = record { step = λ w h. h }
    Holds-free_id (suc n) id = record {
      step = λ w h. elim (Bool-cases (is_taken a id w.state)) [
        | inl e ↦ rw e ((Keeps-bind _ _ (Keeps-new_id env) (Holds-free_id n)).step w h)
        | inr e ↦ rw e h
      ];
    }

    Holds-write_space :
        (name description : String) (o : Option String)
        → Keeps Holds (write_space env now a name description o)
    unfolding write_space
    Holds-write_space name description none = Keeps-pure none
    Holds-write_space name description (some id) =
        Keeps-bind _ _
          (Holds-modify (put_space a (space_of env now a id name description)) λ s. refl)
          λ _.
            Keeps-bind _ _ (Keeps-save env)
              λ _. Keeps-pure (some (space_of env now a id name description))

    pub Holds-create_space :
        (fuel : ℕ) (name description : String)
        → Keeps Holds (create_space env now a fuel name description)
    unfolding create_space
    Holds-create_space fuel name description = Keeps-bind _ _ (Keeps-refuse_if _ _) λ _.
        Keeps-bind _ _ (drawn (clean_rel (trim_space name)))
          λ first. Keeps-bind _ _ (Holds-free_id fuel first) λ id. Holds-write_space _ _ id
      where
        drawn : (r : _) → Keeps Holds (drawn_unless env now a r)
        drawn (err e) = Keeps-new_id env
        drawn (ok id) = Keeps-if _ _ _ (Keeps-new_id env) (Keeps-pure id)

    Holds-activate :
        (space_id : String) (active : Bool) (o : Option SyncSpace)
        → Keeps Holds (activate env now a space_id active o)
    unfolding activate
    Holds-activate space_id active none = Keeps-raise _
    Holds-activate space_id active (some space) =
        Keeps-bind _ _ (Holds-modify _ λ s. refl) λ _. Keeps-save env

    pub Holds-set_space_active :
        (space_id : String) (active : Bool)
        → Keeps Holds (set_space_active env now a space_id active)
    Holds-set_space_active space_id active = record {
      step =
          unfold set_space_active in
          λ w h. (Holds-activate space_id active (get _ w.state.spaces)).step w h;
    }

    Holds-set_root :
        (device_id storage_root : String) (o : Option ClientDevice)
        → Keeps Holds (set_root env now a device_id storage_root o)
    unfolding set_root
    Holds-set_root device_id storage_root none = Keeps-raise _
    Holds-set_root device_id storage_root (some device) =
        Keeps-bind _ _ (Holds-modify _ λ s. refl) λ _. Keeps-save env

    pub Holds-set_client_storage_root :
        (device_id storage_root : String)
        → Keeps Holds (set_client_storage_root env now a device_id storage_root)
    unfolding set_client_storage_root
    Holds-set_client_storage_root device_id storage_root =
        Keeps-bind _ _ (Keeps-refuse_if (trim_space device_id == "") device_id_required) λ _.
          Keeps-bind _ _ (Keeps-refuse_if (trim_space storage_root == "") storage_root_required)
            λ _.
              Keeps-bind _ _
                (Keeps-refuse_if (not (is_client_absolute_path (trim_space storage_root)))
                  storage_root_not_absolute)
                λ _. rooted
      where
        rooted : Keeps Holds λ w.
            set_root env now a
              (trim_space device_id)
              (trim_space storage_root)
              (get (device_key a (trim_space device_id)) w.state.client_devices)
              w
        rooted = record { step = λ w. (Holds-set_root _ _ (get _ w.state.client_devices)).step w }
