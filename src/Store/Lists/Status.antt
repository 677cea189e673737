-- ===== src/Store/Lists/Status.antt =====
-- internal/server/store.go: FolderStatus and ClientStatus, what a client is told of its account.
use xcloud.Prelude.{
  ℕ, String, Bool, true, false, not, ◌&&◌, ◌||◌, List, [], Option, none, some, ◌==◌, if◌then◌else◌,
  map, keep, get, ℤ, pos, ◌+ℤ◌,
}
use xcloud.Model.{
  Account, ClientDevice, ClientFolder, SyncSettings, SyncSpace, ServerState, folder_selected,
  default_sync_settings, normalize_sync_settings,
}
use xcloud.Store.World.{Env, Exec, pure, get_state, modify, ◌>>=◌, ◌>>◌}
use xcloud.Store.Keys.{device_key}
use xcloud.Store.Devices.{put_device}
use xcloud.Store.Trash.{try_save}
use xcloud.Store.Lists.{less, sort_by, values}

pub record AccountProfile : Type 0 where
  pub id : String
  pub username : String
  pub display_name : String
  pub email : String
  pub is_admin : Bool

-- accountProfile
abbrev pub account_profile : Account → AccountProfile
account_profile account = record {
  id = account.id;
  username = account.username;
  display_name = account.display_name;
  email = account.email;
  is_admin = account.is_admin;
}

abbrev no_profile : AccountProfile
no_profile = record { id = ""; username = ""; display_name = ""; email = ""; is_admin = false }

pub record FolderDiscoveryRequest : Type 0 where
  pub root_path : String
  pub depth : ℤ

pub record FolderStatusResponse : Type 0 where
  pub requests : List FolderDiscoveryRequest
  pub selected : List ClientFolder
  pub settings : SyncSettings
  pub storage_root : String

pub record ClientStatusResponse : Type 0 where
  pub account : AccountProfile
  pub space_id : String
  pub sync_enabled : Bool
  pub settings : SyncSettings
  pub storage_root : String
  pub spaces : List SyncSpace
  pub selected : List ClientFolder

abbrev settings_of : Option Account → SyncSettings
settings_of none = default_sync_settings
settings_of (some account) = normalize_sync_settings account.sync_settings

abbrev root_of : Option ClientDevice → String
root_of none = ""
root_of (some device) = device.storage_root

-- The folders of an account and, where one is named, of a device.
abbrev of_device : String → String → ClientFolder → Bool
of_device account_id device_id folder =
    folder.account_id == account_id && (device_id == "" || folder.device_id == device_id)

abbrev is_asked : ClientFolder → Bool
is_asked folder = folder.children_requested && not folder.children_reported

abbrev is_selected : ClientFolder → Bool
is_selected folder = folder.status == folder_selected && not (folder.space_id == "")

module _ (account_id device_id : String) where
  unfoldable pub selected_folders : ServerState → List ClientFolder
  unfolding less sort_by keep
  selected_folders s =
      sort_by (λ a b. less a.root_path b.root_path)
        (keep is_selected (keep (of_device account_id device_id) (values s.client_folders)))

  unfoldable pub asked_folders : ServerState → List FolderDiscoveryRequest
  unfolding less sort_by keep
  asked_folders s =
      sort_by (λ a b. less a.root_path b.root_path)
        (map (λ folder. record { root_path = folder.root_path; depth = folder.depth +ℤ pos 1 })
          (keep is_asked (keep (of_device account_id device_id) (values s.client_folders))))

  -- FolderStatus
  unfoldable pub folder_status : ServerState → FolderStatusResponse
  unfolding asked_folders selected_folders get device_key
  folder_status s = record {
    requests = asked_folders s;
    selected = selected_folders s;
    settings = settings_of (get account_id s.accounts);
    storage_root = root_of (get (device_key account_id device_id) s.client_devices);
  }

  abbrev space_before : SyncSpace → SyncSpace → Bool
  space_before a b =
      if a.id == "default" then true else if b.id == "default" then false else less a.name b.name

  unfoldable pub active_spaces : ServerState → List SyncSpace
  unfolding less sort_by keep
  active_spaces s =
      sort_by space_before
        (keep (λ space. space.account_id == account_id && space.active) (values s.spaces))

  -- The device that asks is marked as seen.
  unfoldable pub see_device : Env → ℕ → Option ClientDevice → Exec (Unit {0})
  see_device env now none = pure tt
  see_device env now (some device) = if device_id == "" then pure tt else do
    modify
        (put_device account_id device_id (record device { last_seen_at = now; updated_at = now }))
    try_save env

  abbrev nothing_found : ClientStatusResponse
  nothing_found = record {
    account = no_profile;
    space_id = "default";
    sync_enabled = false;
    settings = default_sync_settings;
    storage_root = "";
    spaces = [];
    selected = [];
  }

  unfoldable pub status_of : Env → ℕ → Option Account → Exec ClientStatusResponse
  unfolding active_spaces selected_folders
  status_of env now none = pure nothing_found
  status_of env now (some account) = do
    s ← get_state
    let device = get (device_key account_id device_id) s.client_devices
    see_device env now device
    pure (record {
      account = account_profile account;
      space_id = "default";
      sync_enabled = account.sync_enabled;
      settings = normalize_sync_settings account.sync_settings;
      storage_root = root_of device;
      spaces = active_spaces s;
      selected = selected_folders s;
    })

  -- ClientStatus
  unfoldable pub client_status : Env → ℕ → Exec ClientStatusResponse
  client_status env now w = status_of env now (get account_id w.state.accounts) w
