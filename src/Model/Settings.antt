-- ===== src/Model/Settings.antt =====
-- internal/syncmodel/model.go: the normal form of the sync settings.
mod Tests
use xcloud.Prelude.{
  ◌≡◌, refl, ap, inl, inr, true, false, Bool-cases, arith, ℤ, pos, negsuc, leb_ℤ, ltb_ℤ, ◌≤ℤ◌,
  if◌then◌else◌,
}
use xcloud.Model.Accounts.{
  SyncSettings, normalize_sync_settings, default_sync_debounce_millis,
  default_sync_interval_seconds,
}

-- What NormalizeSyncSettings makes of each field alone.
abbrev pub normal_debounce : ℤ → ℤ
normal_debounce d =
    if leb_ℤ d (pos 0)
    then default_sync_debounce_millis
    else if ltb_ℤ d (pos 100)
    then pos 100
    else d

abbrev pub normal_interval : ℤ → ℤ
normal_interval i = if leb_ℤ i (pos 0) then default_sync_interval_seconds else i

fields :
    (s : SyncSettings)
    → normalize_sync_settings s ≡ record s {
      debounce_millis = normal_debounce s.debounce_millis;
      interval_seconds = normal_interval s.interval_seconds;
    }
unfolding normalize_sync_settings
fields s = ground arith

bounded :
    (s : SyncSettings)
    → (pos 100 ≤ℤ (normalize_sync_settings s).debounce_millis)
      × (pos 1 ≤ℤ (normalize_sync_settings s).interval_seconds)
bounded s = rw (fields s) (debounce s.debounce_millis, interval s.interval_seconds)
  where
    debounce : (d : ℤ) → pos 100 ≤ℤ normal_debounce d
    debounce d = ground arith

    interval : (i : ℤ) → pos 1 ≤ℤ normal_interval i
    interval i = ground arith

kept :
    (s : SyncSettings)
    → pos 100 ≤ℤ s.debounce_millis
    → pos 1 ≤ℤ s.interval_seconds
    → normalize_sync_settings s ≡ s
unfolding normalize_sync_settings
kept s d i = ground arith

-- Normal settings have a debounce of at least 100 milliseconds and an interval of at least one
-- second; a debounce that is not positive becomes 800 milliseconds, a smaller one than 100 becomes
-- 100, an interval that is not positive becomes 10 seconds, and all else is kept. Normal settings
-- are their own normal form.
pub normalize_sync_settings_exact :
    (s : SyncSettings)
    → (normalize_sync_settings s ≡ record s {
      debounce_millis = normal_debounce s.debounce_millis;
      interval_seconds = normal_interval s.interval_seconds;
    })
      × (pos 100 ≤ℤ (normalize_sync_settings s).debounce_millis)
      × (pos 1 ≤ℤ (normalize_sync_settings s).interval_seconds)
      × (normalize_sync_settings (normalize_sync_settings s) ≡ normalize_sync_settings s)
normalize_sync_settings_exact s =
    let (d, i) = bounded s in (fields s, d, i, kept (normalize_sync_settings s) d i)
