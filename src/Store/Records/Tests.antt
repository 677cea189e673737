-- ===== src/Store/Records/Tests.antt =====
-- Activity records of two accounts.
use xcloud.Prelude.{
  ◌≤◌, String, ◌≡◌, refl, List, [], ◌∷◌, pos, keep, length, trim_space, reverse, take,
}
use xcloud.Model.{SyncRecord, SyncRecordRequest, max_sync_records_per_account}
use xcloud.Result.{invalid_record_status, ok, err}
use xcloud.Store.World.{Exec, save, save_control}
use xcloud.Store.Records.{
  is_of, trim_records, scan, store_record, add_sync_record, collect_records, list_sync_records,
  record_limit,
}
use xcloud.Store.Records.Bounded.{last_of, trim_records_exact, list_sync_records_exact}
use xcloud.Store.Records.Added.{added_record_first}
use xcloud.Store.Samples.{sample_env, empty_state, world_of}

abbrev upload : SyncRecordRequest
upload = record {
  space_id = "s";
  device_id = "d";
  root_path = "/r";
  path = "a.txt";
  action = " upload";
  status = "success";
  error = "";
  duration_millis = pos 4;
}

abbrev uploaded : String → String → SyncRecord
uploaded account_id id = record {
  id = id;
  account_id = account_id;
  space_id = "s";
  device_id = "d";
  root_path = "/r";
  path = "a.txt";
  action = "upload";
  status = "success";
  error = "";
  duration_millis = pos 4;
  created_at = 7;
}

abbrev records : List SyncRecord
records = uploaded "u" "1" ∷ uploaded "v" "2" ∷ uploaded "u" "3" ∷ []

add_run : SyncRecordRequest → Exec SyncRecord
unfolding add_sync_record store_record scan save save_control trim_space
add_run req = add_sync_record sample_env 7 "u" req

added : (add_sync_record sample_env 7 "u" upload (world_of empty_state)).0 ≡ ok (uploaded "u" "i")
unfolding add_run
added = refl

no_status :
    (add_run (record upload { status = "done" }) (world_of empty_state)).0
    ≡ err invalid_record_status
unfolding add_run
no_status = refl

two_left : (scan "u" 1 records).1 ≡ uploaded "v" "2" ∷ uploaded "u" "3" ∷ []
unfolding scan
two_left = refl

last_first :
    list_sync_records "u" (pos 0) (record empty_state { sync_records = records })
    ≡ uploaded "u" "3" ∷ uploaded "u" "1" ∷ []
unfolding list_sync_records collect_records
last_first = refl

trim_records_exact_example :
    (keep (is_of "u") (trim_records "u" records)
      ≡ last_of max_sync_records_per_account (keep (is_of "u") records))
    × (length (keep (is_of "u") (trim_records "u" records)) ≤ max_sync_records_per_account)
    × (keep (is_of "v") (trim_records "u" records) ≡ keep (is_of "v") records)
trim_records_exact_example = trim_records_exact "u" "v" records refl

list_sync_records_exact_example :
    list_sync_records "u" (pos 1) (record empty_state { sync_records = records })
    ≡ take (record_limit (pos 1)) (reverse (keep (is_of "u") records))
list_sync_records_exact_example =
    list_sync_records_exact "u" (pos 1) (record empty_state { sync_records = records })

added_record_first_example :
    (rest : List SyncRecord) × (list_sync_records "u"
        (pos 3)
        (add_sync_record sample_env 7 "u" upload (world_of empty_state)).1.state
      ≡ uploaded "u" "i" ∷ rest)
added_record_first_example =
    added_record_first sample_env 7 "u" upload (pos 3) (uploaded "u" "i") (world_of empty_state)
      added
