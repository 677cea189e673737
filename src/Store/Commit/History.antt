-- ===== src/Store/Commit/History.antt =====
-- internal/server/store.go: every commit, failing or not, only appends to the history of events.
use xcloud.Prelude.{
  ℕ, ◌+◌, String, ◌≡◌, refl, sym, ◌∙◌, Bool, true, false, List, [], ◌∷◌, ◌++◌, Option, none, some,
  append_assoc, if◌then◌else◌, ◌==◌, get,
}
use xcloud.Model.{FileEntry, FileVersion, Event, ServerState, CommitRequest, ChunkRef, entry_file}
use xcloud.Store.World.{Env}
use xcloud.Store.World.Keeps.{Keeps, Keeps-bind, Keeps-if, Keeps-refuse_if, Keeps-pure}
use xcloud.Store.Keys.{file_key}
use xcloud.Store.Events.{append_event, event_of}
use xcloud.Store.Events.History.{IsHistory, append_event-IsHistory}
use xcloud.Store.Version.{with_current, count_chunks, put_entry}
use xcloud.Store.Commit.{
  Target, or_add, find_entry, add_entry, is_stale, same_dir, commit_over, commit_version,
  commit_found, choose_target, conflict_target, store_version, write_version, commit_entry,
}

-- The history of the state is `before` and what came after it.
pub record Extends (before : List Event) (s : ServerState) : Type 0 where
  pub after : List Event
  pub whole : IsHistory (before ++ after) s

-- Only the event fields of a state matter to its history.
pub same_events :
    (before : List Event) (s t : ServerState)
    → t.events ≡ s.events
    → t.last_event_seq ≡ s.last_event_seq
    → Extends before s
    → Extends before t
same_events before s t e l h = record {
  after = h.after;
  whole = record {
    numbered = h.whole.numbered;
    counted = h.whole.counted ∙ sym l;
    window = e ∙ h.whole.window;
  };
}

Extends-append_event :
    (before : List Event) (version : FileVersion) (s : ServerState)
    → Extends before s
    → Extends before (append_event version s)
Extends-append_event before version s h =
    let event = event_of version (s.last_event_seq + 1) in
    record {
      after = h.after ++ event ∷ [];
      whole =
          rw (← append_assoc before h.after (event ∷ []))
            (append_event-IsHistory version (before ++ h.after) s h.whole);
    }

Extends-count_chunks :
    (before : List Event) (account_id : String) (chunks : List ChunkRef) (s : ServerState)
    → Extends before s
    → Extends before (count_chunks account_id chunks s)
unfolding count_chunks
Extends-count_chunks before account_id [] s h = h
Extends-count_chunks before account_id (chunk ∷ chunks) s h =
    Extends-count_chunks before account_id chunks _ (same_events before s _ refl refl h)

Extends-store_version :
    (before : List Event) (env : Env) (now : ℕ) (account_id space_id : String) (target : Target)
    (version : FileVersion) (s : ServerState)
    → Extends before s
    → Extends before (store_version env now account_id space_id target version s)
unfolding store_version
Extends-store_version before env now account_id space_id target version s h =
    Extends-append_event before version _ (counted (version.state == entry_file))
  where
    key : String
    key = file_key account_id space_id target.path

    entry : FileEntry
    entry = with_current target.entry version false now

    stored : Extends before (put_entry key entry version s)
    stored = unfold put_entry in same_events before s _ refl refl h

    counted :
        (b : Bool)
        → Extends before (
            if b
            then count_chunks account_id version.chunks (put_entry key entry version s)
            else put_entry key entry version s)
    counted true = Extends-count_chunks before account_id version.chunks _ stored
    counted false = stored

module _ (before : List Event) (env : Env) (now : ℕ) (account_id space_id : String) where
  add_entry-Keeps :
      (path : String) → Keeps (Extends before) (add_entry env now account_id space_id path)
  unfolding add_entry
  add_entry-Keeps path = record { step = λ w h. same_events before w.state _ refl refl h }

  or_add-Keeps :
      (o : Option FileEntry) (path : String)
      → Keeps (Extends before) (or_add env now account_id space_id o path)
  unfolding or_add
  or_add-Keeps none path = add_entry-Keeps path
  or_add-Keeps (some entry) path = Keeps-pure entry

  find_entry-Keeps :
      (path : String) → Keeps (Extends before) (find_entry env now account_id space_id path)
  unfolding find_entry
  find_entry-Keeps path = record {
    step = λ w. (or_add-Keeps (get (file_key account_id space_id path) w.state.files) path).step w;
  }

  conflict_target-Keeps :
      (path device_id : String)
      → Keeps (Extends before) (conflict_target env now account_id space_id path device_id)
  unfolding conflict_target add_entry
  conflict_target-Keeps path device_id = record {
    step = λ w h. same_events before w.state _ refl refl h;
  }

  choose_target-Keeps :
      (entry : FileEntry) (path : String) (req : CommitRequest)
      → Keeps (Extends before) (choose_target env now account_id space_id entry path req)
  unfolding choose_target
  choose_target-Keeps entry path req =
      Keeps-if (is_stale req.manifest.base_version entry) _ _
        (conflict_target-Keeps path req.device_id) (Keeps-pure _)

  write_version-Keeps :
      (target : Target) (req : CommitRequest) (state : String)
      → Keeps (Extends before) (write_version env now account_id space_id target req state)
  unfolding write_version
  write_version-Keeps target req state = record {
    step = λ w h. Extends-store_version before env now account_id space_id target _ w.state h;
  }

  commit_over-Keeps :
      (o : Option FileVersion) (entry : FileEntry) (req : CommitRequest) (path state : String)
      → Keeps (Extends before) (commit_over env now account_id space_id o entry req path state)
  unfolding commit_over commit_version
  commit_over-Keeps none entry req path state =
      Keeps-bind _ _ (choose_target-Keeps entry path req)
        (λ target. write_version-Keeps target req state)
  commit_over-Keeps (some current) entry req path state = Keeps-pure _

  pub commit_entry-Keeps :
      (req : CommitRequest) (path state : String)
      → Keeps (Extends before) (commit_entry env now account_id space_id req path state)
  unfolding commit_entry commit_found
  commit_entry-Keeps req path state = Keeps-bind _ _ (find_entry-Keeps path) λ entry.
      Keeps-bind _ _ (Keeps-refuse_if _ _)
        λ _. commit_over-Keeps (same_dir state entry) entry req path state
