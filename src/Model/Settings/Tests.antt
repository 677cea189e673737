-- ===== src/Model/Settings/Tests.antt =====
-- Settings out of bounds.
use xcloud.Prelude.{◌≡◌, true, pos, negsuc, ◌≤ℤ◌}
use xcloud.Model.Accounts.{SyncSettings, normalize_sync_settings}
use xcloud.Model.Settings.{normal_debounce, normal_interval, normalize_sync_settings_exact}

abbrev hasty : SyncSettings
hasty = record { realtime_enabled = true; debounce_millis = pos 5; interval_seconds = negsuc 2 }

normalize_sync_settings_exact_example :
    (normalize_sync_settings hasty ≡ record hasty {
      debounce_millis = normal_debounce (pos 5);
      interval_seconds = normal_interval (negsuc 2);
    })
    × (pos 100 ≤ℤ (normalize_sync_settings hasty).debounce_millis)
    × (pos 1 ≤ℤ (normalize_sync_settings hasty).interval_seconds)
    × (normalize_sync_settings (normalize_sync_settings hasty) ≡ normalize_sync_settings hasty)
normalize_sync_settings_exact_example = normalize_sync_settings_exact hasty
