-- ===== src/Store/Accounts/Login.antt =====
-- internal/server/store.go: who a password or a token stands for, and the tokens of clients.
use xcloud.Prelude.{
  ℕ, String, Bool, true, false, not, ◌&&◌, ◌||◌, [], ◌∷◌, Option, none, some, ◌==◌, if◌then◌else◌,
  get, put, Dict, trim_space,
}
use xcloud.Model.{Account, ClientToken, ClientDevice, ServerState}
use xcloud.Result.{storage_root_not_absolute, invalid_login}
use xcloud.Store.World.{
  Env, Exec, pure, raise, refuse_if, get_state, modify, new_id, save, ◌>>=◌, ◌>>◌,
}
use xcloud.Store.Trash.{try_save}
use xcloud.Store.ClientPath.{is_client_absolute_path, clean_client_path}
use xcloud.Store.Accounts.{verify_secret, hash_secret, new_token, enabled}
use xcloud.Store.Devices.{ensure_client_device, put_device}

-- copy.PasswordHash = "", copy.SyncTokenHash = ""
abbrev pub without_secrets : Account → Account
without_secrets account = record account { password_hash = ""; sync_token_hash = "" }

abbrev or_account : Bool → Account → Option Account → Option Account
or_account true account later = some account
or_account false account later = later

abbrev or_token :
    Option Account
    → String
    → ClientToken
    → Option (String × ClientToken × Account)
    → Option (String × ClientToken × Account)
or_token (some account) key token later = some (key, token, account)
or_token none key token later = later

module _ (env : Env) where
  -- The name or the email of the account is the identifier.
  abbrev pub is_named : String → Account → Bool
  is_named identifier account =
      env.to_lower account.username == identifier
      || (not (env.to_lower account.email == "") && env.to_lower account.email == identifier)

  abbrev pub logs_in : String → String → Account → Bool
  logs_in identifier password account =
      not account.disabled
      && is_named identifier account
      && verify_secret env password account.password_hash

  -- The loop of AuthenticatePassword and IssueClientToken.
  unfoldable pub find_login : String → String → Dict Account → Option Account
  find_login identifier password [] = none
  find_login identifier password ((id, account) ∷ accounts) =
      or_account (logs_in identifier password account) account
        (find_login identifier password accounts)

  -- AuthenticatePassword
  unfoldable pub authenticate_password : String → String → ServerState → Option Account
  authenticate_password identifier password s =
      find_login (env.to_lower (trim_space identifier)) password s.accounts

  -- The account that a client's token stands for.
  unfoldable pub token_account : String → Dict Account → ClientToken → Option Account
  token_account token accounts client_token =
      if client_token.disabled || not (verify_secret env token client_token.token_hash)
      then none
      else enabled (get client_token.account_id accounts)

  -- The first loop of AuthenticateSyncToken.
  unfoldable pub find_token :
      String → Dict Account → Dict ClientToken → Option (String × ClientToken × Account)
  find_token token accounts [] = none
  find_token token accounts ((key, client_token) ∷ tokens) =
      or_token (token_account token accounts client_token) key client_token
        (find_token token accounts tokens)

  -- The second loop of AuthenticateSyncToken.
  unfoldable pub find_sync_token : String → Dict Account → Option Account
  find_sync_token token [] = none
  find_sync_token token ((id, account) ∷ accounts) =
      or_account (not account.disabled && verify_secret env token account.sync_token_hash) account
        (find_sync_token token accounts)

  abbrev pub use_token : String → ClientToken → ℕ → ServerState → ServerState
  use_token key token now s = record s {
    client_tokens = put key (record token { last_used_at = now }) s.client_tokens;
  }

  unfoldable pub authenticate_found :
      ℕ → String → Option (String × ClientToken × Account) → Exec (Option Account)
  authenticate_found now token (some (key, client_token, account)) = do
    modify (use_token key client_token now)
    try_save env
    pure (some account)
  authenticate_found now token none = do s ← get_state; pure (find_sync_token token s.accounts)

  -- AuthenticateSyncToken
  unfoldable pub authenticate_sync_token : ℕ → String → Exec (Option Account)
  authenticate_sync_token now token w =
      authenticate_found now token (find_token token w.state.accounts w.state.client_tokens) w

  abbrev pub client_token_of : String → String → String → String → String → ℕ → ClientToken
  client_token_of id account_id device_id hostname token now = record {
    id = id;
    account_id = account_id;
    device_id = device_id;
    hostname = hostname;
    token_hash = hash_secret env token;
    disabled = false;
    created_at = now;
    last_used_at = 0;
  }

  abbrev pub put_token : ClientToken → ServerState → ServerState
  put_token token s = record s { client_tokens = put token.id token s.client_tokens }

  module _ (now : ℕ) (account : Account) (device_id hostname storage_root : String) where
    abbrev pub login_device : ServerState → ClientDevice
    login_device s =
        let device = ensure_client_device account.id device_id hostname now s in
        if not (storage_root == "") && device.storage_root == ""
        then record device { storage_root = storage_root }
        else device

    abbrev store_device : ServerState → ServerState
    store_device s = put_device account.id device_id (login_device s) s

    -- The storage root that the client is told.
    abbrev effective_root : ServerState → String
    effective_root s =
        let device = login_device s in
        if device_id == "" || device.storage_root == "" then storage_root else device.storage_root

    -- IssueClientToken behind the check of the password.
    unfoldable pub issue_token : Exec (Account × String × String)
    issue_token = do
      token ← new_token env
      id ← new_id env
      modify (put_token (client_token_of id account.id device_id hostname token now))
      s ← get_state
      if device_id == "" then pure tt else modify store_device
      save env
      pure (without_secrets account, token, effective_root s)

  unfoldable pub issue_found :
      ℕ → String → String → String → Option Account → Exec (Account × String × String)
  issue_found now device_id hostname storage_root none = raise invalid_login
  issue_found now device_id hostname storage_root (some account) =
      issue_token now account device_id hostname storage_root

  -- IssueClientToken
  unfoldable pub issue_client_token :
      ℕ → String → String → String → String → String → Exec (Account × String × String)
  issue_client_token now identifier password device_id hostname storage_root = do
    refuse_if
        (not (trim_space storage_root == "")
          && not (is_client_absolute_path (trim_space storage_root)))
        storage_root_not_absolute
    s ← get_state
    issue_found now (trim_space device_id) (trim_space hostname)
        (clean_client_path (trim_space storage_root))
        (find_login (env.to_lower (trim_space identifier)) password s.accounts)
