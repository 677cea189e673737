-- ===== src/Store/Devices/Sticky.antt =====
-- internal/server/store.go: the storage root of a device, once it has one.
use xcloud.Prelude.{ℕ, String, ◌≡◌, false, some, arith, ◌==◌, trim_space, get, get-put_self}
use xcloud.Model.{ClientDevice}
use xcloud.Store.World.{Env, World}
use xcloud.Store.World.Keeps.{state-save}
use xcloud.Store.Keys.{device_key}
use xcloud.Store.Trash.{try_save}
use xcloud.Store.Devices.{seen_device, adopt_root, touch_client_device}

adopt_root-kept :
    (storage_root : String) (now : ℕ) (device : ClientDevice)
    → (device.storage_root == "") ≡ false
    → (adopt_root storage_root now device).storage_root ≡ device.storage_root
unfolding adopt_root
adopt_root-kept storage_root now device h = ground arith

adopt_root-seen :
    (storage_root : String) (now : ℕ) (device : ClientDevice)
    → (adopt_root storage_root now device).last_seen_at ≡ device.last_seen_at
unfolding adopt_root
adopt_root-seen storage_root now device = ground arith

-- A client that shows up again does not change the storage root that its device has: whatever root
-- it names, TouchClientDevice leaves the root of a device that has one, and marks the device as seen
-- at the time.
pub touch_keeps_root :
    (env : Env) (now : ℕ) (account_id device_id hostname storage_root : String)
    (device : ClientDevice) (w : World)
    → (trim_space device_id == "") ≡ false
    → get (device_key account_id (trim_space device_id)) w.state.client_devices ≡ some device
    → (device.storage_root == "") ≡ false
    → (after : ClientDevice) × (get
          (device_key account_id (trim_space device_id))
          (touch_client_device env now account_id device_id hostname storage_root
            w).1.state.client_devices
        ≡ some after)
      × (after.storage_root ≡ device.storage_root)
      × (after.last_seen_at ≡ now)
unfolding touch_client_device try_save seen_device
touch_keeps_root env now account_id device_id hostname storage_root device w named found rooted =
    rw (named, state-save env _, found)
      (_, get-put_self _ _ _, adopt_root-kept _ now _ rooted, adopt_root-seen _ now _)
