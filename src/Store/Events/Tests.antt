-- ===== src/Store/Events/Tests.antt =====
-- The theorems about events at a small history.
use xcloud.Prelude.{◌+◌, List, [], ◌∷◌, ◌++◌, ◌≡◌, refl, arith, keep}
use xcloud.Model.{Event, ServerState}
use xcloud.Store.Events.{event_of, append_event, is_after, events_after}
use xcloud.Store.Events.History.{IsHistory, append_event-IsHistory, events_after_complete}
use xcloud.Store.Samples.{empty_state, sample_version}

abbrev one_event : List Event
one_event = event_of sample_version 1 ∷ []

abbrev one_state : ServerState
one_state = record empty_state { last_event_seq = 1; events = one_event }

no-IsHistory : IsHistory [] empty_state
no-IsHistory = record { numbered = tt; counted = refl; window = refl }

append_event-IsHistory_example :
    IsHistory
      ([] ++ event_of sample_version (empty_state.last_event_seq + 1) ∷ [])
      (append_event sample_version empty_state)
append_event-IsHistory_example = append_event-IsHistory sample_version [] empty_state no-IsHistory

one-IsHistory : IsHistory one_event one_state
one-IsHistory = record { numbered = (refl, tt); counted = refl; window = refl }

events_after_complete_example :
    events_after "u" "s" 0 one_state ≡ keep (is_after "u" "s" 0) one_event
events_after_complete_example =
    events_after_complete "u" "s" 0 one_event one_state one-IsHistory (omega arith)
