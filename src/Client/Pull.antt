-- ===== src/Client/Pull.antt =====
-- internal/client/sync.go: pullRemote and cleanupDeletedDirs.
pub mod Sorted
pub mod Cursor
mod Tests
use xcloud.Prelude.{
  String, Bool, ◌&&◌, List, [], ◌∷◌, ◌==◌, if◌then◌else◌, leb, map, keep, utf8, length,
}
use xcloud.Model.{Event, LocalFileState, entry_deleted, entry_dir}
use xcloud.Client.Local.{Remote, Engine, Act, pure, check_context, call, ◌>>=◌, ◌>>◌}
use xcloud.Client.Memory.{set_last_event_seq}
use xcloud.Client.Apply.{apply_version, on_disk, remove_dir_if_empty}

-- sort.Slice by number. Numbers are the server's and differ.
unfoldable pub insert_event : Event → List Event → List Event
insert_event event [] = event ∷ []
insert_event event (next ∷ events) =
    let later = next ∷ insert_event event events in
    if leb event.seq next.seq then event ∷ next ∷ events else later

unfoldable pub sort_events : List Event → List Event
unfolding insert_event
sort_events [] = []
sort_events (event ∷ events) = insert_event event (sort_events events)

abbrev pub is_deleted_dir : String × LocalFileState → Bool
is_deleted_dir (path, known) = known.state == entry_deleted && known.deleted_state == entry_dir

-- sort.Slice, the longest path first; Go leaves the order of paths of one length open.
unfoldable pub insert_path : String → List String → List String
unfolding utf8
insert_path path [] = path ∷ []
insert_path path (next ∷ paths) =
    let later = next ∷ insert_path path paths in
    if leb (length (utf8 next)) (length (utf8 path)) then path ∷ next ∷ paths else later

unfoldable pub longest_first : List String → List String
unfolding insert_path
longest_first [] = []
longest_first (path ∷ paths) = insert_path path (longest_first paths)

module _ (R : Remote) (e : Engine) where
  -- event.DeviceID == e.cfg.DeviceID && event.RootPath == e.cfg.Root
  abbrev pub is_own : Event → Bool
  is_own event = event.device_id == e.device_id && event.root_path == e.root

  unfoldable pub apply_event : Event → Act R.State (Unit {0})
  apply_event event = if is_own event then pure tt else apply_version R e event.version

  -- The loop of pullRemote.
  unfoldable pub apply_events : List Event → Act R.State (Unit {0})
  apply_events [] = pure tt
  apply_events (event ∷ events) = do
    check_context e
    apply_event event
    set_last_event_seq e event.seq
    apply_events events

  unfoldable pub remove_dirs : List String → Act R.State (Unit {0})
  remove_dirs [] = pure tt
  remove_dirs (path ∷ paths) = do on_disk (remove_dir_if_empty e path); remove_dirs paths

  -- cleanupDeletedDirs
  unfoldable pub cleanup_deleted_dirs : Act R.State (Unit {0})
  cleanup_deleted_dirs d =
      remove_dirs (longest_first (map (λ (path, known). path) (keep is_deleted_dir d.memory.files)))
        d

  -- pullRemote
  unfoldable pub pull_remote : Act R.State (Unit {0})
  pull_remote d =
      (do
        events ← call (R.events d.memory.last_event_seq)
        apply_events (sort_events events)
        cleanup_deleted_dirs)
        d
