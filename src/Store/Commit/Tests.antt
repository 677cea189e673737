-- ===== src/Store/Commit/Tests.antt =====
-- Runs of commits on the sample store, and the theorems about commits at them.
use xcloud.Prelude.{String, List, [], ◌++◌, ◌≡◌, refl, some, none, get}
use xcloud.Model.{Event, CommitRequest, CommitResponse, entry_file}
use xcloud.Result.{Result, ok, err}
use xcloud.Store.World.{Exec}
use xcloud.Store.Keys.{file_key}
use xcloud.Store.Conflict.{conflict_path_run}
use xcloud.Store.Events.{append_event}
use xcloud.Store.Events.History.{IsHistory}
use xcloud.Store.Version.{count_chunks, put_entry}
use xcloud.Store.Commit.{
  add_entry, or_add, find_entry, conflict_target, choose_target, store_version, write_version,
  commit_version, commit_over, commit_found, commit_entry,
}
use xcloud.Store.Commit.Stale.{stale_commit_keeps}
use xcloud.Store.Commit.Stored.{IsStored, commit_entry-IsStored}
use xcloud.Store.Commit.Request.{commit}
use xcloud.Store.Commit.Request.Log.{commit-IsHistory}
use xcloud.Store.Samples.{
  sample_env, sample_manifest, sample_commit, sample_entry, sample_state, empty_state, world_of,
}

-- All that a run of commitEntryLocked computes with.
commit_run : CommitRequest → String → String → Exec CommitResponse
unfolding commit_entry find_entry or_add add_entry commit_found commit_over commit_version
    choose_target conflict_target write_version store_version append_event put_entry count_chunks
    get file_key conflict_path_run
commit_run = commit_entry sample_env 9 "u" "s"

key_sample : get (file_key "u" "s" "a.txt") sample_state.files ≡ some sample_entry
unfolding commit_run
key_sample = refl

stale_commit_keeps_example :
    get
      (file_key "u" "s" "a.txt")
      (commit_entry sample_env 9 "u" "s" sample_commit "a.txt" entry_file
        (world_of sample_state)).1.state.files
    ≡ some sample_entry
stale_commit_keeps_example =
    stale_commit_keeps sample_env 9 "u" "s" sample_commit "a.txt" entry_file sample_entry
      (world_of sample_state) key_sample refl refl

abbrev answered : Result CommitResponse → CommitResponse → CommitResponse
answered (ok resp) other = resp
answered (err e) other = other

sample_answer :
    (resp : CommitResponse) × (commit_entry sample_env 9 "u" "s" sample_commit "a.txt" entry_file
        (world_of sample_state)).0
      ≡ ok resp
    × (resp.conflict_path ≡ "a (conflict from d2 at T).txt")
unfolding commit_run
sample_answer = (_, refl, refl)

commit_entry-IsStored_example :
    IsStored "u" "s" "a.txt" entry_file sample_answer.0
      (commit_entry sample_env 9 "u" "s" sample_commit "a.txt" entry_file
        (world_of sample_state)).1.state
commit_entry-IsStored_example =
    commit_entry-IsStored sample_env 9 "u" "s" sample_commit "a.txt" entry_file sample_answer.0
      (world_of sample_state) sample_answer.1

abbrev named_commit : CommitRequest
named_commit = record sample_commit { manifest = record sample_manifest { file_id = "f7" } }

nothing_there : get (file_key "u" "s" "a.txt") empty_state.files ≡ none
unfolding get
nothing_there = refl

commit-IsHistory_example :
    (after : List Event) × IsHistory
      ([] ++ after)
      (commit sample_env 9 "u" "s" sample_commit (world_of empty_state)).1.state
commit-IsHistory_example =
    commit-IsHistory sample_env 9 "u" "s" sample_commit (world_of empty_state) []
      (record { numbered = tt; counted = refl; window = refl })
