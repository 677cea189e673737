-- ===== src/Client/Pull/Cursor.antt =====
-- internal/client/sync.go: how far pullRemote moves the event cursor.
use xcloud.Prelude.{
  ℕ, String, ◌≡◌, refl, ap, ◌∙◌, inl, inr, List, [], ◌∷◌, ◌++◌, if◌then◌else◌, ltb, Bool-cases,
}
use mathlib.Core.List.{Perm}
use xcloud.Model.{Event}
use xcloud.Result.{Result, ok, err, Error}
use xcloud.Client.Local.{Remote, Engine, Device, resume, check_context, call, ◌>>◌}
use xcloud.Client.Local.Cursor.{
  cursor, KeepsCursor, KeepsCursor-if, KeepsCursor-pure, KeepsCursor-on_disk, KeepsCursor-bind,
}
use xcloud.Client.Memory.{set_last_event_seq, save}
use xcloud.Client.Apply.{remove_dir_if_empty}
use xcloud.Client.Apply.Cursor.{apply_version-KeepsCursor}
use xcloud.Client.Pull.Sorted.{Ascending, Ascending-sort_events, perm-sort_events}
use xcloud.Client.Pull.{
  is_own, apply_event, apply_events, sort_events, remove_dirs, cleanup_deleted_dirs, pull_remote,
}

-- The later of the two numbers, as SetLastEventSeq takes it.
abbrev pub later : ℕ → ℕ → ℕ
later before seq = if ltb before seq then seq else before

-- The cursor behind events.
abbrev pub behind_all : ℕ → List Event → ℕ
behind_all before [] = before
behind_all before (event ∷ events) = behind_all (later before event.seq) events

module _ (R : Remote) (e : Engine) where
  -- The device behind the check of the context, and behind an event that was applied.
  abbrev pub checked : Device R.State → Device R.State
  checked d = (check_context e d).1

  abbrev pub applied : Event → Device R.State → Device R.State
  applied event d = (apply_event R e event (checked d)).1

  abbrev pub advanced : Event → Device R.State → Device R.State
  advanced event d = (set_last_event_seq e event.seq (applied event d)).1

  -- Each of the events in turn, from the device on, is the engine's own or is applied without an error.
  abbrev pub AllApplied : List Event → Device R.State → Type 0
  AllApplied [] d = Unit
  AllApplied (event ∷ events) d =
      ((apply_event R e event (checked d)).0 ≡ ok tt) × AllApplied events (advanced event d)

  -- The events are those that the cursor passed, each of them applied, and those that are left; on
  -- success none is left.
  pub record IsPulled (events : List Event) (d : Device R.State) (r : Result (Unit {0})) (after : ℕ)
      : Type 0 where
    pub passed : List Event
    pub left : List Event
    pub split : events ≡ passed ++ left
    pub all_applied : AllApplied passed d
    pub moved : after ≡ behind_all (cursor d) passed
    pub whole : r ≡ ok tt → left ≡ []

  apply_event-KeepsCursor : (event : Event) → KeepsCursor (apply_event R e event)
  unfolding apply_event
  apply_event-KeepsCursor event =
      KeepsCursor-if (is_own R e event) _ _ (KeepsCursor-pure tt)
        (apply_version-KeepsCursor R e event.version)

  -- SetLastEventSeq moves the cursor in memory, whether or not its file is written.
  set_last_event_seq-cursor :
      (seq : ℕ) (d : Device R.State) → cursor (set_last_event_seq e seq d).1 ≡ later (cursor d) seq
  unfolding set_last_event_seq save
  set_last_event_seq-cursor seq d = elim (Bool-cases (e.state_writable d.saves)) [
    | inl w ↦ rw w refl
    | inr w ↦ rw w refl
  ]

  advanced-cursor :
      (event : Event) (d : Device R.State) → cursor (advanced event d) ≡ later (cursor d) event.seq
  advanced-cursor event d =
      set_last_event_seq-cursor event.seq (applied event d)
      ∙ ap (λ c. later c event.seq) ((apply_event-KeepsCursor event).same (checked d))

  abbrev Pulled : List Event → Device R.State → Result (Unit {0}) × Device R.State → Type 0
  Pulled events d m = IsPulled events d m.0 (cursor m.1)

  none_passed :
      (events : List Event) (d : Device R.State) (x : Error) (after : Device R.State)
      → cursor after ≡ cursor d
      → IsPulled events d (err x) (cursor after)
  none_passed events d x after same = record {
    passed = [];
    left = events;
    split = refl;
    all_applied = tt;
    moved = same;
    whole = λ h. cc;
  }

  first_passed :
      (event : Event) (events : List Event) (d : Device R.State)
      (m : Result (Unit {0}) × Device R.State)
      → (apply_event R e event (checked d)).0 ≡ ok tt
      → Pulled events (advanced event d) m
      → Pulled (event ∷ events) d m
  first_passed event events d m fine p = record {
    passed = event ∷ p.passed;
    left = p.left;
    split = ap (λ es. event ∷ es) p.split;
    all_applied = (fine, p.all_applied);
    moved = p.moved ∙ ap (λ c. behind_all c p.passed) (advanced-cursor event d);
    whole = p.whole;
  }

  module _ (event : Event) (events : List Event) (d : Device R.State)
      (rest : Pulled events (advanced event d) (apply_events R e events (advanced event d))) where
    behind_set :
        (r : Result (Unit {0}))
        → (apply_event R e event (checked d)).0 ≡ ok tt
        → Pulled (event ∷ events) d (resume r (λ _. apply_events R e events) (advanced event d))
    behind_set (ok done) fine =
        first_passed event events d (apply_events R e events (advanced event d)) fine rest
    behind_set (err x) fine =
        first_passed event events d (err x, advanced event d) fine
          (none_passed events (advanced event d) x (advanced event d) refl)

    behind_event :
        (r : Result (Unit {0}))
        → (apply_event R e event (checked d)).0 ≡ r
        → Pulled (event ∷ events) d (
            resume r
              (λ _. set_last_event_seq e event.seq >> apply_events R e events)
              (applied event d))
    behind_event (ok done) fine =
        behind_set (set_last_event_seq e event.seq (applied event d)).0 fine
    behind_event (err x) fine =
        none_passed (event ∷ events) d x (applied event d)
          ((apply_event-KeepsCursor event).same (checked d))

    behind_check :
        (r : Result (Unit {0}))
        → Pulled (event ∷ events) d (
            resume r
              (λ _.
                apply_event R e event
                >> (set_last_event_seq e event.seq >> apply_events R e events))
              (checked d))
    behind_check (ok done) = behind_event (apply_event R e event (checked d)).0 refl
    behind_check (err x) = none_passed (event ∷ events) d x (checked d) refl

  apply_events-IsPulled :
      (events : List Event) (d : Device R.State) → Pulled events d (apply_events R e events d)
  unfolding apply_events
  apply_events-IsPulled [] d = record {
    passed = [];
    left = [];
    split = refl;
    all_applied = tt;
    moved = refl;
    whole = λ h. refl;
  }
  apply_events-IsPulled (event ∷ events) d =
      behind_check event events d (apply_events-IsPulled events (advanced event d))
        (check_context e d).0

  remove_dirs-KeepsCursor : (paths : List String) → KeepsCursor (remove_dirs R e paths)
  unfolding remove_dirs
  remove_dirs-KeepsCursor [] = KeepsCursor-pure tt
  remove_dirs-KeepsCursor (path ∷ paths) =
      KeepsCursor-bind _ _ (KeepsCursor-on_disk (remove_dir_if_empty e path))
        λ _. remove_dirs-KeepsCursor paths

  cleanup-KeepsCursor : KeepsCursor (cleanup_deleted_dirs R e)
  cleanup-KeepsCursor = record {
    same = unfold cleanup_deleted_dirs in λ d. (remove_dirs-KeepsCursor _).same d;
  }

  behind_events :
      (events : List Event) (d after : Device R.State) (r : Result (Unit {0}))
      → IsPulled events d r (cursor after)
      → Pulled events d (resume r (λ _. cleanup_deleted_dirs R e) after)
  behind_events events d after (err x) p = p
  behind_events events d after (ok done) p = record {
    passed = p.passed;
    left = p.left;
    split = p.split;
    all_applied = p.all_applied;
    moved = cleanup-KeepsCursor.same after ∙ p.moved;
    whole = λ h. p.whole refl;
  }

-- Where the server answers with events, a pull takes all of them and no other, each as often as it
-- was answered, in the order of their numbers, and moves the cursor over the first of them, each of which is the engine's own or was applied without an
-- error, and over no other: an event that fails is not among them, nor is one behind it. A pull that
-- returns has passed all of them.
pub pull_remote-cursor :
    (R : Remote) (e : Engine) (d : Device R.State) (events : List Event)
    → (R.events (cursor d) d.remote).0 ≡ ok events
    → Ascending (sort_events events)
      × Perm (sort_events events) events
      × IsPulled R e
          (sort_events events)
          (call (R.events (cursor d)) d).1
          (pull_remote R e d).0
          (cursor (pull_remote R e d).1)
unfolding pull_remote
pull_remote-cursor R e d events answered = (
  Ascending-sort_events events,
  perm-sort_events events,
  rw answered (
      behind_events R e (sort_events events) asked _ _
        (apply_events-IsPulled R e (sort_events events) asked)),
)
  where
    asked : Device R.State
    asked = (call (R.events (cursor d)) d).1
