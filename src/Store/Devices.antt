-- ===== src/Store/Devices.antt =====
-- internal/server/store.go: the devices of clients and their storage roots.
pub mod Sticky
mod Tests
use xcloud.Prelude.{
  ℕ, String, Bool, true, false, not, ◌&&◌, Option, none, some, ◌==◌, if◌then◌else◌, get, put,
  trim_space, Dict, List, [], ◌∷◌,
}
use xcloud.Model.{ClientDevice, ClientToken, ServerState}
use xcloud.Result.{
  ok, device_id_required, storage_root_required, storage_root_not_absolute, device_not_found,
}
use xcloud.Store.World.{Env, Exec, pure, raise, resume, refuse_if, modify, save, ◌>>=◌, ◌>>◌}
use xcloud.Store.Keys.{device_key}
use xcloud.Store.Trash.{try_save}
use xcloud.Store.ClientPath.{is_client_absolute_path, clean_client_path}

abbrev new_device : String → String → String → ℕ → ClientDevice
new_device account_id device_id hostname now = record {
  account_id = account_id;
  device_id = device_id;
  hostname = hostname;
  storage_root = "";
  created_at = now;
  updated_at = now;
  last_seen_at = now;
}

-- The device that ensureClientDeviceLocked returns.
unfoldable pub seen_device : String → String → String → ℕ → Option ClientDevice → ClientDevice
seen_device account_id device_id hostname now none = new_device account_id device_id hostname now
seen_device account_id device_id hostname now (some device) = record device {
  hostname = if hostname == "" then device.hostname else hostname;
  last_seen_at = now;
  updated_at = now;
}

-- ensureClientDeviceLocked, of the device that is under the key
abbrev pub ensure_client_device : String → String → String → ℕ → ServerState → ClientDevice
ensure_client_device account_id device_id hostname now s =
    seen_device account_id device_id hostname now
      (get (device_key account_id device_id) s.client_devices)

-- A storage root is taken over only where the device has none.
unfoldable pub adopt_root : String → ℕ → ClientDevice → ClientDevice
adopt_root storage_root now device =
    if not (storage_root == "") && device.storage_root == ""
    then record device { storage_root = storage_root; updated_at = now }
    else device

abbrev pub put_device : String → String → ClientDevice → ServerState → ServerState
put_device account_id device_id device s = record s {
  client_devices = put (device_key account_id device_id) device s.client_devices;
}

-- firstNonEmpty of two
abbrev first_non_empty : String → String → String
first_non_empty a b = if not (a == "") then a else if not (b == "") then b else ""

-- The loop over the client's tokens in SetClientStorageRoot.
unfoldable pub name_tokens : String → String → String → Dict ClientToken → Dict ClientToken
name_tokens account_id device_id hostname [] = []
name_tokens account_id device_id hostname ((key, token) ∷ tokens) =
    (
      key,
      if token.account_id == account_id && token.device_id == device_id
          then record token { hostname = first_non_empty token.hostname hostname }
          else token,
    )
    ∷ name_tokens account_id device_id hostname tokens

abbrev with_root : String → String → String → ℕ → ClientDevice → ServerState → ServerState
with_root account_id device_id storage_root now device s =
    put_device account_id device_id
      (record device { storage_root = storage_root; updated_at = now })
      (record s {
        client_tokens = name_tokens account_id device_id device.hostname s.client_tokens;
      })

-- The storage root that TouchClientDevice takes over from a request.
abbrev accepted_root : String → String
accepted_root storage_root = clean_client_path (
    if not (storage_root == "") && not (is_client_absolute_path storage_root)
    then ""
    else storage_root)

module _ (env : Env) (now : ℕ) (account_id : String) where
  unfoldable pub set_root : String → String → Option ClientDevice → Exec (Unit {0})
  set_root device_id storage_root none = raise device_not_found
  set_root device_id storage_root (some device) = do
    modify (with_root account_id device_id (clean_client_path storage_root) now device)
    save env

  -- SetClientStorageRoot
  unfoldable pub set_client_storage_root : String → String → Exec (Unit {0})
  set_client_storage_root device_id storage_root = do
    refuse_if (trim_space device_id == "") device_id_required
    refuse_if (trim_space storage_root == "") storage_root_required
    refuse_if (not (is_client_absolute_path (trim_space storage_root))) storage_root_not_absolute
    λ w.
        set_root (trim_space device_id) (trim_space storage_root)
          (get (device_key account_id (trim_space device_id)) w.state.client_devices) w

  abbrev touched : String → String → String → ServerState → ServerState
  touched device_id hostname storage_root s =
      put_device account_id device_id
        (adopt_root storage_root now (ensure_client_device account_id device_id hostname now s)) s

  -- TouchClientDevice
  unfoldable pub touch_client_device : String → String → String → Exec (Unit {0})
  touch_client_device device_id hostname storage_root w =
      if trim_space device_id == ""
      then (ok tt, w)
      else (do
        modify (
            touched (trim_space device_id) (trim_space hostname)
              (accepted_root (trim_space storage_root)))
        try_save env)
          w
