-- ===== src/Client/Pull/Tests.antt =====
-- The theorem about the event cursor at the sample engine.
use xcloud.Prelude.{[], ◌∷◌, refl}
use mathlib.Core.List.{Perm}
use xcloud.Client.Local.{call}
use xcloud.Client.Local.Cursor.{cursor}
use xcloud.Client.Pull.{sort_events, pull_remote}
use xcloud.Client.Pull.Cursor.{IsPulled, pull_remote-cursor}
use xcloud.Client.Pull.Sorted.{Ascending}
use xcloud.Client.Samples.{sample_engine, sample_remote, sample_device, sample_event}

pull_remote-cursor_example :
    Ascending (sort_events (sample_event ∷ []))
    × Perm (sort_events (sample_event ∷ [])) (sample_event ∷ [])
    × IsPulled sample_remote sample_engine
        (sort_events (sample_event ∷ []))
        (call (sample_remote.events (cursor sample_device)) sample_device).1
        (pull_remote sample_remote sample_engine sample_device).0
        (cursor (pull_remote sample_remote sample_engine sample_device).1)
pull_remote-cursor_example =
    pull_remote-cursor sample_remote sample_engine sample_device (sample_event ∷ []) refl
