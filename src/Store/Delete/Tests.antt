-- ===== src/Store/Delete/Tests.antt =====
-- A run of Delete on the sample store, and that sending it again changes nothing.
use xcloud.Prelude.{◌≡◌, refl, get, trim_space}
use xcloud.Model.{CommitResponse, DeleteRequest}
use xcloud.Result.{ok}
use xcloud.Fileutil.{clean_rel_run}
use xcloud.Store.World.{Exec, save, save_control}
use xcloud.Store.Keys.{file_key, operation_key, space_key}
use xcloud.Store.Events.{append_event}
use xcloud.Store.Version.{space_found, put_entry}
use xcloud.Store.Delete.{
  tombstone, store_tombstone, finish, write_tombstone, delete_found, delete_at, delete_new,
  delete_once, delete,
}
use xcloud.Store.Delete.Once.{delete_idempotent}
use xcloud.Store.Samples.{sample_env, sample_delete, sample_state, world_of}

-- All that a run of Delete computes with.
delete_run : DeleteRequest → Exec CommitResponse
unfolding delete delete_once delete_new delete_at delete_found write_tombstone finish
    store_tombstone tombstone append_event put_entry space_found get file_key operation_key
    space_key save save_control clean_rel_run trim_space
delete_run = delete sample_env 9 "u" "s"

sample_answer :
    (resp : CommitResponse) × ((delete sample_env 9 "u" "s" sample_delete (world_of sample_state)).0
      ≡ ok resp)
    × (resp.version.deleted_state ≡ "file")
unfolding delete_run
sample_answer = (_, refl, refl)

delete_idempotent_example :
    delete sample_env 12 "u" "s" sample_delete
      (delete sample_env 9 "u" "s" sample_delete (world_of sample_state)).1
    ≡ (ok sample_answer.0, (delete sample_env 9 "u" "s" sample_delete (world_of sample_state)).1)
delete_idempotent_example =
    delete_idempotent sample_env 9 12 "u" "s" sample_delete sample_answer.0 (world_of sample_state)
      sample_answer.1
