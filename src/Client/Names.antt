-- ===== src/Client/Names.antt =====
-- internal/client/sync.go: the names and settings with which the engines of a client are set up.
mod Tests
use Prim.Native.String.{slice}
use xcloud.Prelude.{
  ℕ, ◌/◌, String, Bool, true, false, not, ◌&&◌, ◌||◌, List, [], ◌∷◌, ◌++◌, Option, none, some, ◌==◌,
  if◌then◌else◌, ◌<>◌, ℤ, pos, negsuc, leb_ℤ, any, trim_space, utf8,
}
use xcloud.Model.{
  SyncSpace, SyncSettings, normalize_sync_settings, default_sync_interval_seconds,
  default_sync_debounce_millis,
}
use xcloud.Store.Conflict.{safe_device_chars}
use xcloud.Store.Trash.{trim_dashes_left, trim_dashes_right}
use xcloud.Store.Lists.{less, sort_by}

abbrev name_or_default : String → String
name_or_default name = if name == "" then "default" else name

-- safeStateName
unfoldable pub safe_state_name : String → String
unfolding trim_dashes_left trim_dashes_right safe_device_chars
safe_state_name v = name_or_default (trim_dashes_right (trim_dashes_left (safe_device_chars v)))

-- The function `add` of activeSpaceIDs; `seen` are the ids so far.
abbrev add_id : String → List String → List String
add_id id seen =
    if trim_space id == "" || any (λ other. other == trim_space id) seen
    then seen
    else seen ++ trim_space id ∷ []

-- The loop of activeSpaceIDs over the spaces.
unfoldable pub active_ids : List SyncSpace → List String → List String
unfolding trim_space any
active_ids [] seen = seen
active_ids (space ∷ spaces) seen =
    active_ids spaces (if space.active then add_id space.id seen else seen)

abbrev or_fallback : String → List String → List String
or_fallback fallback [] = add_id fallback []
or_fallback fallback (id ∷ ids) = id ∷ ids

abbrev id_before : String → String → Bool
id_before a b = if a == "default" then true else if b == "default" then false else less a b

-- activeSpaceIDs
unfoldable pub active_space_ids : List SyncSpace → String → List String
unfolding active_ids less sort_by trim_space any
active_space_ids spaces fallback = sort_by id_before (or_fallback fallback (active_ids spaces []))

-- The whole seconds of a time in nanoseconds that is positive.
abbrev seconds : ℤ → ℤ
seconds (pos n) = pos (n / 1000000000)
seconds (negsuc n) = pos 0

-- One function for each `if` of normalizeClientSettings, in its order.
abbrev fallback_interval : ℤ → SyncSettings → SyncSettings
fallback_interval interval s =
    if leb_ℤ s.interval_seconds (pos 0) && not (leb_ℤ interval (pos 0))
    then record s { interval_seconds = seconds interval }
    else s

abbrev positive_interval : SyncSettings → SyncSettings
positive_interval s =
    if leb_ℤ s.interval_seconds (pos 0)
    then record s { interval_seconds = default_sync_interval_seconds }
    else s

abbrev positive_debounce : SyncSettings → SyncSettings
positive_debounce s =
    if leb_ℤ s.debounce_millis (pos 0)
    then record s { debounce_millis = default_sync_debounce_millis }
    else s

-- normalizeClientSettings
unfoldable pub normalize_client_settings : SyncSettings → ℤ → SyncSettings
normalize_client_settings settings interval =
    normalize_sync_settings
      (positive_debounce (positive_interval (fallback_interval interval settings)))

-- defaultDeviceID, with the name of the host, SHA-256 in hexadecimal and the server's URL
unfoldable pub default_device_id : String → (List ℕ → String) → String → String → String → String
unfolding trim_space safe_state_name ◌<>◌ utf8
default_device_id host sha256_hex device_id storage_root server_url =
    if not (trim_space device_id == "")
    then trim_space device_id
    else safe_state_name (if host == "" then "device" else host)
      <> "-"
      <> slice (sha256_hex (utf8 (server_url <> "\0" <> storage_root))) 0 8
