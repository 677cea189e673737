-- ===== src/Store/Commit/Request/Log.antt =====
-- internal/server/store.go: Commit, with the parent directories that it makes, only appends events.
use xcloud.Prelude.{
  ℕ, String, ◌≡◌, refl, Bool, true, false, List, [], ◌∷◌, ◌++◌, Option, none, some, ℤ, append-nil,
  arith,
}
use xcloud.Model.{Event, Manifest, ChunkRef, CommitRequest, CommitResponse, entry_dir}
use xcloud.Result.{Result, ok, err}
use xcloud.Store.World.{Env, World}
use xcloud.Store.World.Keeps.{
  Keeps, Keeps-bind, Keeps-if, Keeps-refuse_if, Keeps-lift, Keeps-pure, Keeps-raise, Keeps-save,
  Keeps-modify, Keeps-get_state,
}
use xcloud.Store.Events.History.{IsHistory}
use xcloud.Store.Chunks.{check_total, read_chunks, verify_empty, verify_chunks, verify_manifest}
use xcloud.Store.Version.{record_answer}
use xcloud.Store.Commit.History.{Extends, same_events, commit_entry-Keeps}
use xcloud.Store.Commit.Request.{
  next_dir, ensure_dir, ensure_dirs, ensure_parent_dirs, check_content, check_commit, commit_new,
  answer, commit_locked, commit, trimmed, manifest_state, lookup_operation,
}

module _ (before : List Event) (env : Env) where
  verify_empty-Keeps :
      (account_id : String) (manifest : Manifest)
      → Keeps (Extends before) (verify_empty env account_id manifest)
  unfolding verify_empty
  verify_empty-Keeps account_id manifest = record {
    step = λ w h.
        same_events before w.state (verify_empty env account_id manifest w).1.state (ground arith)
          (ground arith) h;
  }

  check_total-Keeps :
      (manifest : Manifest) (r : Result (List ℕ))
      → Keeps (Extends before) (check_total env manifest r)
  unfolding check_total
  check_total-Keeps manifest (err e) = Keeps-raise e
  check_total-Keeps manifest (ok bytes) = record { step = λ w h. rw (untouched w) h }
    where
      untouched : (w : World) → (check_total env manifest (ok bytes) w).1.state ≡ w.state
      untouched w = ground arith

  verify_chunks-Keeps :
      (account_id : String) (manifest : Manifest) (chunks : List ChunkRef)
      → Keeps (Extends before) (verify_chunks env account_id manifest chunks)
  unfolding verify_chunks
  verify_chunks-Keeps account_id manifest [] = verify_empty-Keeps account_id manifest
  verify_chunks-Keeps account_id manifest (chunk ∷ chunks) = record {
    step =
        λ w. (check_total-Keeps manifest (read_chunks env account_id w 0 (chunk ∷ chunks))).step w;
  }

  check_content-Keeps :
      (now : ℕ) (account_id space_id : String) (is_file : Bool) (manifest : Manifest)
      → Keeps (Extends before) (check_content env now account_id space_id is_file manifest)
  unfolding check_content verify_manifest
  check_content-Keeps now account_id space_id true manifest =
      verify_chunks-Keeps account_id manifest manifest.chunks
  check_content-Keeps now account_id space_id false manifest = Keeps-refuse_if _ _

module _ (before : List Event) (env : Env) (now : ℕ) (account_id space_id : String) where
  check_commit-Keeps :
      (req : CommitRequest) → Keeps (Extends before) (check_commit env now account_id space_id req)
  unfolding check_commit
  check_commit-Keeps req =
      search
        (Keeps-bind, Keeps-refuse_if, Keeps-lift, Keeps-pure, Keeps-get_state, check_content-Keeps)
        depth 40

  ensure_dir-Keeps :
      (device_id root_path : String) (mod_time_unix : ℤ) (path : String)
      → Keeps
          (Extends before)
          (ensure_dir env now account_id space_id device_id root_path mod_time_unix path)
  unfolding ensure_dir
  ensure_dir-Keeps device_id root_path mod_time_unix path = Keeps-bind _ _ Keeps-get_state λ s.
      Keeps-if _ _ _ (Keeps-pure tt) (
        Keeps-bind _ _ (commit_entry-Keeps before env now account_id space_id _ path entry_dir)
          (λ _. Keeps-pure tt))

  ensure_dirs-Keeps :
      (device_id root_path : String) (mod_time_unix : ℤ) (current : String) (parts : List String)
      → Keeps
          (Extends before)
          (ensure_dirs env now account_id space_id device_id root_path mod_time_unix current parts)
  unfolding ensure_dirs
  ensure_dirs-Keeps device_id root_path mod_time_unix current [] = Keeps-pure tt
  ensure_dirs-Keeps device_id root_path mod_time_unix current (part ∷ parts) =
      Keeps-bind _ _ (ensure_dir-Keeps device_id root_path mod_time_unix _)
        (λ _. ensure_dirs-Keeps device_id root_path mod_time_unix (next_dir current part) parts)

  ensure_parent_dirs-Keeps :
      (path device_id root_path : String) (mod_time_unix : ℤ)
      → Keeps
          (Extends before)
          (ensure_parent_dirs env now account_id space_id path device_id root_path mod_time_unix)
  unfolding ensure_parent_dirs
  ensure_parent_dirs-Keeps path device_id root_path mod_time_unix =
      Keeps-if _ _ _ (Keeps-pure tt) (ensure_dirs-Keeps device_id root_path mod_time_unix "" _)

  answer-Keeps :
      (o : Option CommitResponse) (req : CommitRequest) (path state : String)
      → Keeps (Extends before) (answer env now account_id space_id o req path state)
  unfolding answer commit_new
  answer-Keeps (some existing) req path state = Keeps-pure existing
  answer-Keeps none req path state =
      Keeps-bind _ _ (commit_entry-Keeps before env now account_id space_id req path state) λ resp.
        Keeps-bind _ _
          (Keeps-modify (record_answer account_id space_id req.operation_id resp)
            (λ s h. same_events before s _ refl refl h))
          λ _. Keeps-bind _ _ (Keeps-save env) (λ _. Keeps-pure resp)

  commit_locked-Keeps :
      (req : CommitRequest) (path state : String)
      → Keeps (Extends before) (commit_locked env now account_id space_id req path state)
  unfolding commit_locked
  commit_locked-Keeps req path state =
      Keeps-bind _ _ (ensure_parent_dirs-Keeps path req.device_id req.root_path _) λ _. record {
        step = λ w.
            (answer-Keeps (lookup_operation env now account_id space_id req.operation_id w) req path
                state).step
              w;
      }

  commit-Keeps :
      (req : CommitRequest) → Keeps (Extends before) (commit env now account_id space_id req)
  unfolding commit
  commit-Keeps req =
      Keeps-bind _ _ (check_commit-Keeps (trimmed req))
        (λ path. commit_locked-Keeps (trimmed req) path (manifest_state req.manifest))

-- A commit, whether it succeeds or fails, and with all the directories that it makes on the way,
-- only appends to the history of events, each new one with the next number.
pub commit-IsHistory :
    (env : Env) (now : ℕ) (account_id space_id : String) (req : CommitRequest) (w : World)
    (history : List Event)
    → IsHistory history w.state
    → (after : List Event) × IsHistory
        (history ++ after)
        (commit env now account_id space_id req w).1.state
commit-IsHistory env now account_id space_id req w history h =
    let start : Extends history w.state = record { after = []; whole = rw append-nil h } in
    let end = (commit-Keeps history env now account_id space_id req).step w start in
    (end.after, end.whole)
