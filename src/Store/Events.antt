-- ===== src/Store/Events.antt =====
-- internal/server/store.go: appendEventLocked and EventsAfter.
pub mod History
mod Tests
use xcloud.Prelude.{
  ℕ, ◌+◌, ◌-◌, String, Bool, ◌&&◌, List, [], ◌∷◌, ◌++◌, if◌then◌else◌, ◌==◌, ltb, keep, length,
  drop,
}
use xcloud.Model.{FileVersion, Event, ServerState}

abbrev pub max_events : ℕ
max_events = 10000

abbrev pub event_of : FileVersion → ℕ → Event
event_of version seq = record {
  account_id = version.account_id;
  space_id = version.space_id;
  seq = seq;
  path = version.path;
  file_id = version.file_id;
  version_id = version.version_id;
  state = version.state;
  device_id = version.device_id;
  root_path = version.root_path;
  created_at = version.created_at;
  version = version;
}

-- The last `max_events` events.
unfoldable pub trim_events : List Event → List Event
trim_events events =
    if ltb max_events (length events) then drop (length events - max_events) events else events

unfoldable pub append_event : FileVersion → ServerState → ServerState
append_event version s =
    let seq = s.last_event_seq + 1 in
    record s { last_event_seq = seq; events = trim_events (s.events ++ event_of version seq ∷ []) }

abbrev pub is_after : String → String → ℕ → Event → Bool
is_after account_id space_id after event =
    event.account_id == account_id && event.space_id == space_id && ltb after event.seq

-- EventsAfter
unfoldable pub events_after : String → String → ℕ → ServerState → List Event
events_after account_id space_id after s = keep (is_after account_id space_id after) s.events
