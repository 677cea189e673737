-- ===== src/Store/Records.antt =====
-- internal/server/store.go: AddSyncRecord, ListSyncRecords and trimSyncRecordsLocked.
pub mod Bounded
pub mod Added
mod Tests
use xcloud.Prelude.{
  ℕ, zero, suc, ◌+◌, String, Bool, true, false, not, ◌&&◌, List, [], ◌∷◌, ◌++◌, ℤ, pos, leb_ℤ,
  pos_part, if◌then◌else◌, ◌==◌, leb, trim_space, reverse,
}
use xcloud.Model.{
  SyncRecord, SyncRecordRequest, ServerState, max_sync_records_per_account,
  sync_record_status_success, sync_record_status_failed,
}
use xcloud.Result.{action_required, status_required, invalid_record_status}
use xcloud.Store.World.{
  Env, Exec, pure, raise, resume, refuse_if, modify, new_id, save, ◌>>=◌, ◌>>◌,
}

abbrev pub is_of : String → SyncRecord → Bool
is_of account_id r = r.account_id == account_id

abbrev pub scan_record : String → ℕ → SyncRecord → ℕ × List SyncRecord → ℕ × List SyncRecord
scan_record account_id most r (count, kept) =
    if is_of account_id r
    then (if leb (count + 1) most then (count + 1, r ∷ kept) else (count + 1, kept))
    else (count, r ∷ kept)

-- The loop of trimSyncRecordsLocked, from the last record to the first: how many records of the
-- account it has met, and what it leaves.
unfoldable pub scan : String → ℕ → List SyncRecord → ℕ × List SyncRecord
scan account_id most [] = (0, [])
scan account_id most (r ∷ rs) = scan_record account_id most r (scan account_id most rs)

-- trimSyncRecordsLocked
abbrev pub trim_records : String → List SyncRecord → List SyncRecord
trim_records account_id rs = (scan account_id max_sync_records_per_account rs).1

abbrev pub add_record : String → SyncRecord → ServerState → ServerState
add_record account_id r s = record s {
  sync_records = trim_records account_id (s.sync_records ++ r ∷ []);
}

abbrev record_of : String → SyncRecordRequest → ℕ → String → SyncRecord
record_of account_id req now id = record {
  id = id;
  account_id = account_id;
  space_id = trim_space req.space_id;
  device_id = trim_space req.device_id;
  root_path = trim_space req.root_path;
  path = trim_space req.path;
  action = trim_space req.action;
  status = trim_space req.status;
  error = trim_space req.error;
  duration_millis = req.duration_millis;
  created_at = now;
}

module _ (env : Env) (now : ℕ) (account_id : String) where
  unfoldable pub store_record : SyncRecordRequest → Exec SyncRecord
  store_record req = do
    id ← new_id env
    let r = record_of account_id req now id
    modify (add_record account_id r)
    save env
    pure r

  -- AddSyncRecord
  unfoldable pub add_sync_record : SyncRecordRequest → Exec SyncRecord
  add_sync_record req = do
    refuse_if (trim_space req.action == "") action_required
    refuse_if (trim_space req.status == "") status_required
    refuse_if
        (not (trim_space req.status == sync_record_status_success)
          && not (trim_space req.status == sync_record_status_failed))
        invalid_record_status
    store_record req

-- The loop of ListSyncRecords, over the records with the last one first.
unfoldable pub collect_records : String → ℕ → List SyncRecord → List SyncRecord
collect_records account_id zero rs = []
collect_records account_id (suc n) [] = []
collect_records account_id (suc n) (r ∷ rs) =
    let shorter = r ∷ collect_records account_id n rs in
    let longer = collect_records account_id (suc n) rs in
    if is_of account_id r then shorter else longer

-- limit, or 200
abbrev pub record_limit : ℤ → ℕ
record_limit limit = if leb_ℤ limit (pos 0) then 200 else pos_part limit

-- ListSyncRecords
unfoldable pub list_sync_records : String → ℤ → ServerState → List SyncRecord
list_sync_records account_id limit s =
    collect_records account_id (record_limit limit) (reverse s.sync_records)
