-- ===== src/Store/Delete/Once.antt =====
-- internal/server/store.go: a delete that is sent again is answered as before and changes nothing.
use xcloud.Prelude.{
  ℕ, String, ◌≡◌, refl, sym, ap, ◌∙◌, inl, inr, true, false, not, ◌&&◌, Option, none, some, arith,
  ◌==◌, get, get-put_self, Bool-cases,
}
use xcloud.Model.{FileEntry, DeleteRequest, CommitResponse, ServerState, entry_deleted}
use xcloud.Result.{Result, ok, err, ok_inj}
use xcloud.Fileutil.{clean_rel}
use xcloud.Store.World.{Env, World, resume}
use xcloud.Store.World.Keeps.{save_then}
use xcloud.Store.Keys.{file_key, operation_key}
use xcloud.Store.Events.{append_event}
use xcloud.Store.Version.{space_found, put_entry, record_answer}
use xcloud.Store.Delete.{
  current_is, store_tombstone, finish, write_tombstone, delete_found, delete_at, delete_new,
  delete_once, trimmed, delete,
}

-- `resp` is recorded under the operation, the spaces are as before, and all is saved.
pub record IsAnswered (account_id space_id operation_id : String) (resp : CommitResponse)
    (before after : World) : Type 0 where
  pub recorded :
      get (operation_key account_id space_id operation_id) after.state.operations ≡ some resp
  pub spaces : after.state.spaces ≡ before.state.spaces
  pub in_metadata : after.metadata ≡ after.state
  pub in_control : after.control ≡ after.state

-- The tests in front of the lookup of the operation.
record Admits (account_id space_id : String) (req : DeleteRequest) (w : World) : Type 0 where
  named : (req.operation_id == "") ≡ false
  from_device : (req.device_id == "") ≡ false
  placed : (req.path == "") ≡ false
  in_space : space_found account_id space_id w.state ≡ true

-- The spaces alone decide whether a space is found.
in_space_of_spaces :
    (account_id space_id : String) (s t : ServerState)
    → t.spaces ≡ s.spaces
    → space_found account_id space_id s ≡ true
    → space_found account_id space_id t ≡ true
unfolding space_found
in_space_of_spaces account_id space_id s t e h = rw e h

module _ (env : Env) (now : ℕ) (account_id space_id : String) where
  module _ (req : DeleteRequest) (resp : CommitResponse) (before : World) where
    abbrev Answers : Result CommitResponse × World → Type 0
    Answers r = r.0 ≡ ok resp → IsAnswered account_id space_id req.operation_id resp before r.1

    Answers-finish :
        (given : CommitResponse) (w : World)
        → w.state.spaces ≡ before.state.spaces
        → Answers (finish env now account_id space_id req.operation_id given w)
    unfolding finish
    Answers-finish given w same h =
        let saved = record_answer account_id space_id req.operation_id given w.state in
        let (e, end) = save_then env given resp (record w { state = saved }) h in
        rw end (record {
          recorded =
              get-put_self (operation_key account_id space_id req.operation_id) given
                w.state.operations
              ∙ ap some e;
          spaces = same;
          in_metadata = refl;
          in_control = refl;
        })

    Answers-tombstone :
        (entry : FileEntry) (path : String)
        → Answers (write_tombstone env now account_id space_id entry req path before)
    unfolding write_tombstone store_tombstone append_event put_entry
    Answers-tombstone entry path = Answers-finish _ _ refl

    Answers-found :
        (entry : FileEntry) (path : String)
        → Answers (delete_found env now account_id space_id entry req path before)
    unfolding delete_found
    Answers-found entry path =
        elim (Bool-cases (not (req.file_id == "") && not (req.file_id == entry.file_id))) [
          | inl e ↦ rw e (λ h. cc)
          | inr e ↦
              rw e
                (elim (Bool-cases
                  (current_is (λ v. not (req.base_version == v.version_id)) entry)) [
                    | inl f ↦ rw f (Answers-finish _ before refl)
                    | inr f ↦
                        rw f (elim (Bool-cases (current_is (λ v. v.state == entry_deleted) entry)) [
                          | inl g ↦ rw g (Answers-finish _ before refl)
                          | inr g ↦ rw g (Answers-tombstone entry path)
                        ])
                  ])
        ]

    Answers-at :
        (o : Option FileEntry) (path : String)
        → Answers (delete_at env now account_id space_id o req path before)
    unfolding delete_at
    Answers-at none path = λ h. cc
    Answers-at (some entry) path = Answers-found entry path

    Answers-path :
        (r : Result String)
        → Answers (
            resume r
              (λ path w.
                delete_at env now account_id space_id
                  (get (file_key account_id space_id path) w.state.files)
                  req
                  path
                  w)
              before)
    Answers-path (ok path) = Answers-at _ path
    Answers-path (err e) = λ h. cc

    Answers-new : Answers (delete_new env now account_id space_id req before)
    unfolding delete_new
    Answers-new = Answers-path (clean_rel req.path)

    Answers-once :
        (o : Option CommitResponse)
        → o ≡ get (operation_key account_id space_id req.operation_id) before.state.operations
        → (delete_once env now account_id space_id o req before).0 ≡ ok resp
        → (get
              (operation_key account_id space_id req.operation_id)
              (delete_once env now account_id space_id o req before).1.state.operations
            ≡ some resp)
          × ((delete_once env now account_id space_id o req before).1.state.spaces
              ≡ before.state.spaces)
    unfolding delete_once
    Answers-once none e h = let done = Answers-new h in (done.recorded, done.spaces)
    Answers-once (some existing) e h = (sym e ∙ ap some (ok_inj h), refl)

  abbrev once : DeleteRequest → World → Result CommitResponse × World
  once req w =
      delete_once env now account_id space_id
        (get (operation_key account_id space_id req.operation_id) w.state.operations) (trimmed req)
        w

  admitted :
      (req : DeleteRequest) (w : World)
      → Admits account_id space_id req w
      → delete env now account_id space_id req w ≡ once req w
  unfolding delete
  admitted req w a = rw (a.named, a.from_device, a.placed, a.in_space)

  Admits-of_ok :
      (req : DeleteRequest) (resp : CommitResponse) (w : World)
      → (delete env now account_id space_id req w).0 ≡ ok resp
      → Admits account_id space_id req w
  unfolding delete
  Admits-of_ok req resp w h = ground arith

-- A delete that was answered and is sent again, at whatever time, gets the same answer and changes
-- nothing, in memory or on disk.
pub delete_idempotent :
    (env : Env) (now later : ℕ) (account_id space_id : String) (req : DeleteRequest)
    (resp : CommitResponse) (w : World)
    → (delete env now account_id space_id req w).0 ≡ ok resp
    → delete env later account_id space_id req (delete env now account_id space_id req w).1
      ≡ (ok resp, (delete env now account_id space_id req w).1)
unfolding delete_once
delete_idempotent env now later account_id space_id req resp w h =
    let a = Admits-of_ok env now account_id space_id req resp w h in
    let first = admitted env now account_id space_id req w a in rw first (again a (rw first at h))
  where
    after : World
    after = (once env now account_id space_id req w).1

    repeated :
        get (operation_key account_id space_id req.operation_id) after.state.operations ≡ some resp
        → once env later account_id space_id req after ≡ (ok resp, after)
    repeated recorded = rw recorded

    again :
        Admits account_id space_id req w
        → (once env now account_id space_id req w).0 ≡ ok resp
        → delete env later account_id space_id req after ≡ (ok resp, after)
    again a h =
        let (recorded, spaces) =
          Answers-once env now account_id space_id (trimmed req) resp w _ refl h in
        let still : Admits account_id space_id req after = record {
          named = a.named;
          from_device = a.from_device;
          placed = a.placed;
          in_space = in_space_of_spaces account_id space_id w.state after.state spaces a.in_space;
        } in
        admitted env later account_id space_id req after still ∙ repeated recorded
