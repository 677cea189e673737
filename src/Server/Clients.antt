-- ===== src/Server/Clients.antt =====
-- internal/server/http.go: the login of clients, and what they ask with their token alone.
use xcloud.Prelude.{ℕ, String, Bool, Option, none, some, trim_space, trim_prefix}
use xcloud.Model.{Account, SyncSettings, SyncRecord, SyncRecordRequest, normalize_sync_settings}
use xcloud.Result.{Result, ok, err, Error}
use xcloud.Store.World.{Env, World}
use xcloud.Store.Accounts.{set_account_sync_enabled}
use xcloud.Store.Accounts.Login.{authenticate_sync_token, issue_client_token}
use xcloud.Store.Records.{add_sync_record}
use xcloud.Store.Lists.Status.{AccountProfile, account_profile, ClientStatusResponse, client_status}
use xcloud.Server.Sync.{Decoded, malformed, decoded}

pub record ClientLoginRequest : Type 0 where
  pub identifier : String
  pub password : String
  pub device_id : String
  pub hostname : String
  pub storage_root : String

pub record ClientLoginResponse : Type 0 where
  pub account : AccountProfile
  pub token : String
  pub space_id : String
  pub sync_enabled : Bool
  pub settings : SyncSettings
  pub storage_root : String

pub data ClientReply : Type 0 where
  refused : ℕ → String → ClientReply
  logged_in : ClientLoginResponse → ClientReply
  client_told : ClientStatusResponse → ClientReply
  recorded : SyncRecord → ClientReply

abbrev ClientHandler : Type 0
ClientHandler = World → ClientReply × World

module _ (env : Env) (error_text : Error → String) (now : ℕ) where
  abbrev on_decoded : {A : Type 0} → Decoded A → (A → ClientHandler) → ClientHandler
  on_decoded (malformed message) next w = (refused 400 message, w)
  on_decoded (decoded req) next w = next req w

  -- The result of an operation as an answer, or its error with a status.
  abbrev replied : {A : Type 0} → ℕ → (A → ClientReply) → Result A × World → ClientReply × World
  replied status answer (ok a, w) = (answer a, w)
  replied status answer (err e, w) = (refused status (error_text e), w)

  abbrev login_response : Account × String × String → ClientReply
  login_response (account, token, storage_root) = logged_in (record {
    account = account_profile account;
    token = token;
    space_id = "default";
    sync_enabled = account.sync_enabled;
    settings = normalize_sync_settings account.sync_settings;
    storage_root = storage_root;
  })

  -- clientLogin
  unfoldable pub client_login : Decoded ClientLoginRequest → ClientHandler
  client_login body = on_decoded body λ req w. replied 401 login_response (
      issue_client_token env now req.identifier req.password req.device_id req.hostname
        req.storage_root w)

  abbrev with_account :
      (Account → ClientHandler) → Result (Option Account) × World → ClientReply × World
  with_account next (ok (some account), w) = next account w
  with_account next (ok none, w) = (refused 401 "unauthorized", w)
  with_account next (err e, w) = (refused 401 "unauthorized", w)

  -- clientAuth
  unfoldable pub client_auth : String → (Account → ClientHandler) → ClientHandler
  client_auth authorization next w =
      with_account next (authenticate_sync_token env now (trim_prefix authorization "Bearer ") w)

  -- clientStatus
  unfoldable pub handle_status : String → Account → ClientHandler
  handle_status device account w =
      replied 500 client_told (client_status account.id (trim_space device) env now w)

  abbrev toggled_then : ClientHandler → Result (Unit {0}) × World → ClientReply × World
  toggled_then next (ok done, w) = next w
  toggled_then next (err e, w) = (refused 400 (error_text e), w)

  -- clientSyncToggle
  unfoldable pub handle_toggle : String → Decoded Bool → Account → ClientHandler
  unfolding handle_status
  handle_toggle device body account = on_decoded body λ on w.
      toggled_then (handle_status device account) (set_account_sync_enabled env now account.id on w)

  -- createSyncRecord
  unfoldable pub handle_record : Decoded SyncRecordRequest → Account → ClientHandler
  handle_record body account =
      on_decoded body λ req w. replied 400 recorded (add_sync_record env now account.id req w)
