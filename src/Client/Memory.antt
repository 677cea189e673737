-- ===== src/Client/Memory.antt =====
-- internal/client/state.go: the client's state in memory and in its file.
use xcloud.Prelude.{
  erase, ℕ, ◌+◌, String, Bool, true, false, ◌==◌, ◌&&◌, ◌||◌, not, Option, none, some,
  if◌then◌else◌, get, put, ltb, [],
}
use xcloud.Model.{LocalFileState}
use xcloud.Result.{ok, err, state_not_written}
use xcloud.Client.Local.{Engine, StateData, Act}

abbrev is_true : Option Bool → Bool
is_true none = false
is_true (some b) = b

-- DirReported
unfoldable pub dir_reported : String → StateData → Bool
dir_reported path m = is_true (get path m.reported_dirs)

abbrev switch_space : String → StateData → StateData
switch_space space_id m =
    if not (m.space_id == "") && not (space_id == "")
    then record m { files = []; last_event_seq = 0; space_id = space_id }
    else record m { space_id = space_id }

module _ {S : Type 0} (e : Engine) where
  -- saveLocked
  unfoldable pub save : Act S (Unit {0})
  save d =
      if e.state_writable d.saves
      then (ok tt, record d { saved = d.memory; saves = d.saves + 1 })
      else (err state_not_written, record d { saves = d.saves + 1 })

  -- The change in memory, and the save.
  abbrev change : (StateData → StateData) → Act S (Unit {0})
  change f d = save (record d { memory = f d.memory })

  -- Set
  unfoldable pub set : String → LocalFileState → Act S (Unit {0})
  set path value = change (λ m. record m { files = put path value m.files })

  -- Delete
  unfoldable pub forget : String → Act S (Unit {0})
  forget path = change (λ m. record m { files = erase path m.files })

  -- EnsureSpace
  unfoldable pub ensure_space : String → Act S (Unit {0})
  ensure_space space_id d =
      if d.memory.space_id == space_id then (ok tt, d) else change (switch_space space_id) d

  -- SeedSpace
  unfoldable pub seed_space : String → Act S (Unit {0})
  seed_space space_id d =
      if not (d.memory.space_id == "") || space_id == ""
      then (ok tt, d)
      else change (λ m. record m { space_id = space_id }) d

  -- MarkDirReported
  unfoldable pub mark_dir_reported : String → Act S (Unit {0})
  mark_dir_reported path d =
      if dir_reported path d.memory
      then (ok tt, d)
      else change (λ m. record m { reported_dirs = put path true m.reported_dirs }) d

  -- SetLastEventSeq
  unfoldable pub set_last_event_seq : ℕ → Act S (Unit {0})
  set_last_event_seq seq = change (λ m. record m {
    last_event_seq = if ltb m.last_event_seq seq then seq else m.last_event_seq;
  })
