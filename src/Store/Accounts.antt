-- ===== src/Store/Accounts.antt =====
-- internal/server/store.go: accounts, their passwords and tokens.
pub mod Login
pub mod Create
pub mod Guarded
pub mod Issued
pub mod Unique
pub mod Password
pub mod Others
mod Tests
use xcloud.Prelude.{
  ℕ, String, Bool, true, false, not, ◌&&◌, ◌||◌, Option, none, some, ◌==◌, ltb, ◌<>◌, utf8, length,
  if◌then◌else◌, get, put,
}
use xcloud.Model.{Account, SyncSettings, ServerState, normalize_sync_settings}
use xcloud.Result.{Error, account_not_found, wrong_password, new_password_short}
use xcloud.Store.World.{
  Env, Exec, pure, raise, resume, refuse_if, modify, new_id, save, ◌>>=◌, ◌>>◌,
}

module _ (env : Env) where
  -- HashSecret
  abbrev pub hash_secret : String → String
  hash_secret secret = env.sha256_hex (utf8 secret)

  -- VerifySecret; the comparison in constant time is an equality.
  unfoldable pub verify_secret : String → String → Bool
  verify_secret secret hash =
      if secret == "" || hash == "" then false else hash_secret secret == hash

  -- fileutil.NewID() + fileutil.NewID()
  unfoldable pub new_token : Exec String
  unfolding ◌<>◌
  new_token = do first ← new_id env; second ← new_id env; pure (first <> second)

-- account == nil || account.Disabled
abbrev pub enabled : Option Account → Option Account
enabled none = none
enabled (some account) = if account.disabled then none else some account

-- GetAccount
unfoldable pub get_account : String → ServerState → Option Account
get_account account_id s = enabled (get account_id s.accounts)

abbrev pub put_account : String → Account → ServerState → ServerState
put_account account_id account s = record s { accounts = put account_id account s.accounts }

module _ (env : Env) (now : ℕ) (account_id : String) where
  -- A field is set, the account is marked as updated, and all is saved.
  unfoldable pub write_account : Account → Exec (Unit {0})
  write_account account = do
    modify (put_account account_id (record account { updated_at = now }))
    save env

  unfoldable pub update_account : (Account → Account) → Option Account → Exec (Unit {0})
  update_account change none = raise account_not_found
  update_account change (some account) = write_account (change account)

  -- SetAccountSyncEnabled
  unfoldable pub set_account_sync_enabled : Bool → Exec (Unit {0})
  set_account_sync_enabled on w =
      update_account (λ a. record a { sync_enabled = on }) (get_account account_id w.state) w

  -- SetSyncSettings
  unfoldable pub set_sync_settings : SyncSettings → Exec (Unit {0})
  set_sync_settings settings w =
      update_account (λ a. record a { sync_settings = normalize_sync_settings settings })
        (get_account account_id w.state) w

  -- SetAccountDisabled, which takes disabled accounts as well
  unfoldable pub set_account_disabled : Bool → Exec (Unit {0})
  set_account_disabled disabled w =
      update_account (λ a. record a { disabled = disabled }) (get account_id w.state.accounts) w

  unfoldable pub change_verified : String → String → Option Account → Exec (Unit {0})
  change_verified current_password new_password none = raise account_not_found
  change_verified current_password new_password (some account) =
      if not (verify_secret env current_password account.password_hash)
      then raise wrong_password
      else write_account (record account { password_hash = hash_secret env new_password })

  -- ChangePassword; len counts bytes.
  unfoldable pub change_password : String → String → Exec (Unit {0})
  change_password current_password new_password = do
    refuse_if (ltb (length (utf8 new_password)) 8) new_password_short
    λ w. change_verified current_password new_password (get_account account_id w.state) w

  unfoldable pub reset_found : Option Account → Exec String
  reset_found none = raise account_not_found
  reset_found (some account) = do
    token ← new_token env
    write_account (record account { sync_token_hash = hash_secret env token })
    pure token

  -- ResetSyncToken
  unfoldable pub reset_sync_token : Exec String
  reset_sync_token w = reset_found (get account_id w.state.accounts) w
