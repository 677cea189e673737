-- ===== src/Store/Devices/Tests.antt =====
-- A device that shows up with another storage root.
use xcloud.Prelude.{◌≡◌, refl, [], ◌∷◌, some, false, ◌==◌, get, trim_space}
use xcloud.Model.{ClientDevice, ServerState}
use xcloud.Store.Keys.{device_key}
use xcloud.Store.Devices.{touch_client_device}
use xcloud.Store.Devices.Sticky.{touch_keeps_root}
use xcloud.Store.Samples.{sample_env, empty_state, world_of}

abbrev laptop : ClientDevice
laptop = record {
  account_id = "u";
  device_id = "d";
  hostname = "h";
  storage_root = "/data";
  created_at = 1;
  updated_at = 1;
  last_seen_at = 1;
}

abbrev laptop_state : ServerState
laptop_state = record empty_state { client_devices = ("u\0d", laptop) ∷ [] }

laptop_found : get (device_key "u" (trim_space " d")) laptop_state.client_devices ≡ some laptop
unfolding get device_key trim_space
laptop_found = refl

laptop_named : (trim_space " d" == "") ≡ false
unfolding trim_space
laptop_named = refl

touch_keeps_root_example :
    (after : ClientDevice) × (get
        (device_key "u" (trim_space " d"))
        (touch_client_device sample_env 9 "u" " d" "h" "/other"
          (world_of laptop_state)).1.state.client_devices
      ≡ some after)
    × (after.storage_root ≡ "/data")
    × (after.last_seen_at ≡ 9)
touch_keeps_root_example =
    touch_keeps_root sample_env 9 "u" " d" "h" "/other" laptop (world_of laptop_state) laptop_named
      laptop_found refl
