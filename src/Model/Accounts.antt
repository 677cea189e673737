-- ===== src/Model/Accounts.antt =====
-- internal/syncmodel/model.go: accounts, client tokens, devices, spaces and folders.
use xcloud.Prelude.{ℕ, String, Bool, true, ℤ, pos, leb_ℤ, ltb_ℤ, if◌then◌else◌}

abbrev pub default_sync_interval_seconds : ℤ
default_sync_interval_seconds = pos 10

abbrev pub default_sync_debounce_millis : ℤ
default_sync_debounce_millis = pos 800

abbrev pub folder_pending : String
folder_pending = "pending"

abbrev pub folder_selected : String
folder_selected = "selected"

abbrev pub folder_disabled : String
folder_disabled = "disabled"

pub record SyncSettings : Type 0 where
  pub realtime_enabled : Bool
  pub debounce_millis : ℤ
  pub interval_seconds : ℤ

abbrev pub default_sync_settings : SyncSettings
default_sync_settings = record {
  realtime_enabled = true;
  debounce_millis = default_sync_debounce_millis;
  interval_seconds = default_sync_interval_seconds;
}

-- One function for each `if` of NormalizeSyncSettings, in its order.
abbrev default_debounce : SyncSettings → SyncSettings
default_debounce s =
    if leb_ℤ s.debounce_millis (pos 0)
    then record s { debounce_millis = default_sync_debounce_millis }
    else s

abbrev default_interval : SyncSettings → SyncSettings
default_interval s =
    if leb_ℤ s.interval_seconds (pos 0)
    then record s { interval_seconds = default_sync_interval_seconds }
    else s

abbrev least_interval : SyncSettings → SyncSettings
least_interval s =
    if ltb_ℤ s.interval_seconds (pos 1) then record s { interval_seconds = pos 1 } else s

abbrev least_debounce : SyncSettings → SyncSettings
least_debounce s =
    if ltb_ℤ s.debounce_millis (pos 100) then record s { debounce_millis = pos 100 } else s

unfoldable pub normalize_sync_settings : SyncSettings → SyncSettings
normalize_sync_settings s = least_debounce (least_interval (default_interval (default_debounce s)))

pub record Account : Type 0 where
  pub id : String
  pub username : String
  pub display_name : String
  pub email : String
  pub password_hash : String
  pub sync_token_hash : String
  pub is_admin : Bool
  pub disabled : Bool
  pub sync_enabled : Bool
  pub sync_settings : SyncSettings
  pub created_at : ℕ
  pub updated_at : ℕ

pub record ClientToken : Type 0 where
  pub id : String
  pub account_id : String
  pub device_id : String
  pub hostname : String
  pub token_hash : String
  pub disabled : Bool
  pub created_at : ℕ
  pub last_used_at : ℕ

pub record ClientDevice : Type 0 where
  pub account_id : String
  pub device_id : String
  pub hostname : String
  pub storage_root : String
  pub created_at : ℕ
  pub updated_at : ℕ
  pub last_seen_at : ℕ

pub record SyncSpace : Type 0 where
  pub id : String
  pub account_id : String
  pub name : String
  pub description : String
  pub active : Bool
  pub created_at : ℕ
  pub updated_at : ℕ

pub record ClientFolder : Type 0 where
  pub id : String
  pub account_id : String
  pub device_id : String
  pub hostname : String
  pub root_path : String
  pub parent_path : String
  pub depth : ℤ
  pub suggested_space_id : String
  pub space_id : String
  pub status : String
  pub children_requested : Bool
  pub children_reported : Bool
  pub children_requested_at : ℕ
  pub children_reported_at : ℕ
  pub last_seen_at : ℕ
  pub created_at : ℕ
  pub updated_at : ℕ
