-- ===== src/Store/Accounts/Others/Restored.antt =====
-- internal/server/store.go: what RestoreTrash leaves of the accounts.
use xcloud.Prelude.{
  ℕ, String, ◌≡◌, refl, inl, inr, Bool, false, not, Option, none, some, ◌==◌, get, Bool-cases,
  trim_space, leb, ◌+◌,
}
use xcloud.Model.{
  Account, ServerState, RestoreRequest, FileEntry, FileVersion, trash_retention_seconds,
}
use xcloud.Result.{Error, trash_not_found, trash_expired, file_id_required, sync_space_not_found}
use xcloud.Fileutil.{clean_rel}
use xcloud.Store.World.{Env}
use xcloud.Store.World.Keeps.{
  Keeps, Keeps-bind, Keeps-if, Keeps-pure, Keeps-raise, Keeps-lift, Keeps-get_state, Keeps-new_id,
  Keeps-refuse_if, Keeps-save,
}
use xcloud.Store.Trash.{
  prune_trash, prunes, tombstone_in, restore_source, restore_space, restore_device,
}
use xcloud.Store.Keys.{file_key}
use xcloud.Store.Trash.Restore.{
  refuse_restore, restored_version, store_restored, write_restored, restore_from, restore_tombstone,
  restore_at, restore_locked, restore_trash,
}
use xcloud.Store.Version.{versions_of, put_entry, space_found, with_current, response}
use xcloud.Store.Events.{append_event}
use xcloud.Store.Accounts.Others.{Holds, Holds-modify, Holds-try_save}

module _ (b : String) (held : Option Account) (env : Env) (now : ℕ) (a : String) where
  Holds-refuse_restore :
      (pruned : Bool) (e : Error) → Keeps (Holds b held) (refuse_restore env now a pruned e)
  unfolding refuse_restore
  Holds-refuse_restore pruned e =
      Keeps-bind _ _ (Keeps-if pruned _ _ (Holds-try_save b held env) (Keeps-pure tt))
        λ _. Keeps-raise e

  Holds-store_restored :
      (entry : FileEntry) (space_id path : String) (version : FileVersion) (s : ServerState)
      → (store_restored env now a entry space_id path version s).accounts ≡ s.accounts
  unfolding store_restored append_event put_entry
  Holds-store_restored entry space_id path version s = refl

  Holds-write_restored :
      (entry : FileEntry) (space_id path : String) (current source : FileVersion)
      (device_id : String)
      → Keeps (Holds b held) (write_restored env now a entry space_id path current source device_id)
  unfolding write_restored
  Holds-write_restored entry space_id path current source device_id =
      Keeps-bind _ _ (Keeps-new_id env) λ version_id.
        let version =
          restored_version env now a entry space_id path current source device_id version_id in
        Keeps-bind _ _
          (Holds-modify b held (store_restored env now a entry space_id path version)
            (Holds-store_restored entry space_id path version))
          λ _.
            Keeps-bind _ _ (Keeps-save env)
              λ _. Keeps-pure (response (with_current entry version false now) version)

  Holds-restore_from :
      (pruned : Bool) (entry : FileEntry) (space_id path : String) (current : FileVersion)
      (device_id : String) (o : Option FileVersion)
      → Keeps (Holds b held) (restore_from env now a pruned entry space_id path current device_id o)
  unfolding restore_from
  Holds-restore_from pruned entry space_id path current device_id none =
      Holds-refuse_restore pruned _
  Holds-restore_from pruned entry space_id path current device_id (some source) =
      Holds-write_restored entry space_id path current source device_id

  Holds-restore_tombstone :
      (pruned : Bool) (entry : FileEntry) (space_id path device_id : String)
      (o : Option FileVersion)
      → Keeps (Holds b held) (restore_tombstone env now a pruned entry space_id path device_id o)
  unfolding restore_tombstone
  Holds-restore_tombstone pruned entry space_id path device_id none = record {
    step = λ w. (Holds-refuse_restore pruned trash_not_found).step w;
  }
  Holds-restore_tombstone pruned entry space_id path device_id (some current) = record {
    step = λ w h. elim (Bool-cases (leb (current.deleted_at + trash_retention_seconds) now)) [
      | inl e ↦ rw e ((Holds-refuse_restore pruned trash_expired).step w h)
      | inr e ↦ rw e (
          (Holds-restore_from pruned entry space_id path current device_id
              (restore_source (versions_of entry.file_id w.state) current)).step
            w h)
    ];
  }

  Holds-restore_at :
      (pruned : Bool) (space_id path file_id device_id : String) (o : Option FileEntry)
      → Keeps (Holds b held) (restore_at env now a pruned space_id path file_id device_id o)
  unfolding restore_at
  Holds-restore_at pruned space_id path file_id device_id none = Holds-refuse_restore pruned _
  Holds-restore_at pruned space_id path file_id device_id (some entry) =
      Keeps-if _ _ _ (Holds-refuse_restore pruned trash_not_found)
        (Holds-restore_tombstone pruned entry space_id path device_id (tombstone_in entry))

  Holds-restore_locked :
      (space_id path file_id device_id : String)
      → Keeps (Holds b held) (restore_locked env now a space_id path file_id device_id)
  unfolding restore_locked
  Holds-restore_locked space_id path file_id device_id = Keeps-bind _ _ Keeps-get_state λ s.
      Keeps-bind _ _ (Holds-modify b held (prune_trash now) (unfold prune_trash in λ t. refl))
        λ _. found s
    where
      found :
          (s : ServerState)
          → Keeps (Holds b held) λ w.
            restore_at env now a
              (prunes now s)
              space_id
              path
              file_id
              device_id
              (get (file_key a space_id path) w.state.files)
              w
      found s = record { step = λ w. (Holds-restore_at _ _ _ _ _ (get _ w.state.files)).step w }

  pub Holds-restore_trash :
      (req : RestoreRequest) (actor : String)
      → Keeps (Holds b held) (restore_trash env now a req actor)
  unfolding restore_trash
  Holds-restore_trash req actor = Keeps-bind _ _ Keeps-get_state λ s.
      Keeps-bind _ _
        (Keeps-refuse_if (not (space_found a (restore_space req) s)) sync_space_not_found)
        λ _. Keeps-bind _ _ (Keeps-lift (clean_rel req.path)) λ path.
          Keeps-bind _ _ (Keeps-refuse_if (trim_space req.file_id == "") file_id_required) λ _.
            Holds-restore_locked (restore_space req) path (trim_space req.file_id)
              (restore_device actor)
