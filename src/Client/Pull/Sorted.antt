-- ===== src/Client/Pull/Sorted.antt =====
-- internal/client/sync.go: the order in which pullRemote takes events.
use xcloud.Prelude.{ℕ, ◌≤◌, inl, inr, List, [], ◌∷◌, leb, arith, All, Bool-cases}
use mathlib.Core.List.{Perm}
use mathlib.Core.List.Perm
use xcloud.Model.{Event}
use xcloud.Client.Pull.{insert_event, sort_events}

-- The events stand in the order of their numbers.
abbrev pub Ascending : List Event → Type 0
Ascending [] = Unit
Ascending (event ∷ events) = All (λ next. event.seq ≤ next.seq) events × Ascending events

All-weaken :
    (a b : ℕ) (events : List Event)
    → b ≤ a
    → All (λ next. a ≤ next.seq) events
    → All (λ next. b ≤ next.seq) events
All-weaken a b [] le h = tt
All-weaken a b (event ∷ events) le h =
    (let first = h.0 in omega arith, All-weaken a b events le h.1)

All-insert_event :
    (a : ℕ) (event : Event) (events : List Event)
    → a ≤ event.seq
    → All (λ next. a ≤ next.seq) events
    → All (λ next. a ≤ next.seq) (insert_event event events)
unfolding insert_event
All-insert_event a event [] le h = (le, tt)
All-insert_event a event (next ∷ events) le h = elim (Bool-cases (leb event.seq next.seq)) [
  | inl s ↦ rw s (le, h)
  | inr s ↦ rw s (h.0, All-insert_event a event events le h.1)
]

Ascending-insert_event :
    (event : Event) (events : List Event) → Ascending events → Ascending (insert_event event events)
unfolding insert_event
Ascending-insert_event event [] h = (tt, tt)
Ascending-insert_event event (next ∷ events) h = elim (Bool-cases (leb event.seq next.seq)) [
  | inl s ↦
      let le : event.seq ≤ next.seq = ground arith in
      rw s ((le, All-weaken next.seq event.seq events le h.0), h)
  | inr s ↦
      let le : next.seq ≤ event.seq = ground arith in
      rw s (All-insert_event next.seq event events le h.0, Ascending-insert_event event events h.1)
]

pub Ascending-sort_events : (events : List Event) → Ascending (sort_events events)
unfolding sort_events
Ascending-sort_events [] = tt
Ascending-sort_events (event ∷ events) =
    Ascending-insert_event event (sort_events events) (Ascending-sort_events events)

perm-insert_event :
    (event : Event) (events : List Event) → Perm (insert_event event events) (event ∷ events)
unfolding insert_event
perm-insert_event event [] = Perm.refl (event ∷ [])
perm-insert_event event (next ∷ events) = elim (Bool-cases (leb event.seq next.seq)) [
  | inl s ↦ rw s (Perm.refl (event ∷ next ∷ events))
  | inr s ↦
      rw s
        (Perm.trans (Perm.cons next (perm-insert_event event events)) (Perm.swap event next events))
]

-- No event is lost, made up or doubled.
pub perm-sort_events : (events : List Event) → Perm (sort_events events) events
unfolding sort_events
perm-sort_events [] = Perm.refl []
perm-sort_events (event ∷ events) =
    Perm.trans (perm-insert_event event (sort_events events))
      (Perm.cons event (perm-sort_events events))
