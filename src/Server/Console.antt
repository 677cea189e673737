-- ===== src/Server/Console.antt =====
-- internal/server/http.go: the handlers of the web console.
pub mod Routes
pub mod Leaves
pub mod Open
pub mod Guarded
use Prim.Native.Char.{code}
use xcloud.Prelude.{
  ℕ, ◌+◌, ◌*◌, ◌-◌, String, Bool, true, false, not, ◌&&◌, ◌||◌, List, [], ◌∷◌, Option, none, some,
  ◌==◌, if◌then◌else◌, ◌<>◌, ltb, ℤ, pos, trim_space, Dict,
}
use xcloud.Model.{
  Account, SyncSettings, SyncSpace, RestoreRequest, CommitResponse, default_sync_debounce_millis,
  default_sync_interval_seconds,
}
use xcloud.Result.{Result, ok, err, Error}
use xcloud.Config.{RuntimeConfig, normalize_config}
use xcloud.Store.Accounts.{
  get_account, reset_sync_token, set_account_disabled, change_password, set_sync_settings,
}
use xcloud.Store.Accounts.Login.{authenticate_password}
use xcloud.Store.Accounts.Create.{create_account}
use xcloud.Store.Spaces.{create_space, set_space_active}
use xcloud.Store.Devices.{set_client_storage_root}
use xcloud.Store.Trash.Restore.{restore_trash}
use xcloud.Server.Site.{
  Host, Site, Request, Flash, no_flash, failure, success, Page, to_admin, unanswered, auth_page,
  dashboard, Handler, field, shows, run, render_dashboard, session_account, open_session,
}

-- The decimal number of a text, or none where a character is no digit; `n` is what is read before.
-- Go's `int` wraps where the number has more than 18 digits; the model's does not.
unfoldable pub digits : ℕ → String → Option ℕ
digits n String.[] = some n
digits n (String.◌∷◌ c s) =
    let rest = digits (n * 10 + (code c - b'0')) s in
    if ltb (code c) b'0' || ltb b'9' (code c) then none else rest

abbrev number_or : ℤ → Option ℕ → ℤ
number_or fallback none = fallback
number_or fallback (some n) = if ltb 0 n then pos n else fallback

-- atoiDefault
unfoldable pub atoi_default : String → ℤ → ℤ
unfolding digits trim_space
atoi_default v fallback =
    if trim_space v == "" then fallback else number_or fallback (digits 0 (trim_space v))

abbrev pub on_form_error : Option String → (String → Handler) → Handler → Handler
on_form_error none refuse next = next
on_form_error (some message) refuse next = refuse message

-- The form's account_id, or the account that is logged in.
abbrev pub target_id : Account → Request → String
target_id account req = if field "account_id" req == "" then account.id else field "account_id" req

module _ (host : Host) (now : ℕ) where
  abbrev pub dash : Account → Flash → String → Handler
  dash account flash view = render_dashboard host now account flash view

  -- The result of an operation as a message.
  abbrev pub told : {A : Type 0} → Account → (A → String) → String → String → Result A → Handler
  told account text view error_view (ok a) = dash account (success (text a)) view
  told account text view error_view (err e) = dash account (failure (host.error_text e)) error_view

  abbrev pub with_form : Account → String → Request → Handler → Handler
  with_form account view req next =
      on_form_error req.form_error (λ message. dash account (failure message) view) next

  -- A target that is not the account's own is for administrators.
  abbrev pub own_or_admin : Account → String → String → String → Handler → Handler
  own_or_admin account account_id text view next =
      if not (account_id == account.id) && not account.is_admin
      then dash account (failure text) view
      else next

  abbrev auth_message : String → String → Handler
  auth_message mode message = shows (auth_page mode message)

  abbrev pub entered : Option Account → Handler
  entered none = auth_message "login" "账号或密码错误"
  entered (some account) = open_session host account.id (shows to_admin)

  -- adminLogin
  unfoldable pub admin_login : Request → Handler
  admin_login req = on_form_error req.form_error (auth_message "login") λ site.
      entered
        (authenticate_password host.env (field "identifier" req) (field "password" req)
          site.world.state)
        site

  abbrev pub registered : Result (Account × String) → Handler
  registered (err e) = auth_message "register" (host.error_text e)
  registered (ok (account, token)) =
      open_session host account.id
        (dash account (success ("账号已创建并登录。同步 token 只显示一次：" <> token)) "overview")

  -- adminRegister
  unfoldable pub admin_register : Request → Handler
  unfolding ◌<>◌
  admin_register req = on_form_error req.form_error (auth_message "register") (
      if not (field "password" req == field "confirm_password" req)
      then auth_message "register" "两次输入的密码不一致"
      else run
          (create_account host.env (field "username" req) (field "email" req)
            (field "display_name" req) (field "password" req) false now)
          registered)

  abbrev page_without_account : String → Handler
  page_without_account view =
      shows (auth_page (if view == "register" then "register" else "login") "")

  abbrev pub welcomed : String → Option Account → Handler
  welcomed view none = page_without_account view
  welcomed view (some account) = dash account no_flash "overview"

  -- admin; `view` is the query's.
  unfoldable pub admin : String → Request → Handler
  admin view req site = welcomed view (session_account req site) site

  -- adminCreateAccount
  unfoldable pub admin_create_account : Request → Account → Handler
  unfolding ◌<>◌
  admin_create_account req account = with_form account "overview" req (
      run
        (create_account host.env (field "username" req) (field "email" req)
          (field "display_name" req) (field "password" req) (field "admin" req == "on") now)
        (told account
          (λ (created, token). "账号 " <> created.username <> " 已创建。同步 token 只显示一次：" <> token)
          "overview" "overview"))

  abbrev pub reset_of : Account → String → Option Account → Handler
  reset_of account account_id none = dash account (failure "账号不存在") "overview"
  reset_of account account_id (some target) = run (reset_sync_token host.env now account_id) (
      told account (λ token. "账号 " <> target.username <> " 的同步 token 已重置，只显示一次：" <> token)
        "overview" "overview")

  -- adminResetToken
  unfoldable pub admin_reset_token : Request → Account → Handler
  unfolding ◌<>◌
  admin_reset_token req account = with_form account "overview" req (
      own_or_admin account (target_id account req) "没有权限重置其他账号 token" "overview" λ site.
        reset_of account (target_id account req)
          (get_account (target_id account req) site.world.state) site)

  -- adminToggleAccount
  unfoldable pub admin_toggle_account : Request → Account → Handler
  admin_toggle_account req account = with_form account "overview" req (
      if field "account_id" req == account.id
      then dash account (failure "不能禁用当前登录账号") "overview"
      else run
          (set_account_disabled host.env now (field "account_id" req)
            (field "disabled" req == "true"))
          (told account (λ done. "账号状态已更新") "overview" "overview"))

  -- adminChangePassword
  unfoldable pub admin_change_password : Request → Account → Handler
  admin_change_password req account = with_form account "overview" req (
      if not (field "new_password" req == field "confirm_password" req)
      then dash account (failure "两次输入的新密码不一致") "overview"
      else run
          (change_password host.env now account.id (field "current_password" req)
            (field "new_password" req))
          (told account (λ done. "登录密码已更新") "overview" "overview"))

  -- The account that the new space is for.
  abbrev pub owner_id : Account → Request → String
  owner_id account req =
      if account.is_admin && not (field "account_id" req == "")
      then field "account_id" req
      else account.id

  abbrev pub is_there : Option Account → Bool
  is_there none = false
  is_there (some account) = true

  abbrev pub created : Account → Result (Option SyncSpace) → Handler
  created account (ok none) = shows unanswered
  created account (err e) = dash account (failure (host.error_text e)) "spaces"
  created account (ok (some space)) =
      dash account
        (success (
          "Space " <> space.name <> " 已创建。客户端使用 -space " <> space.id <> " 时会同步 xcloud/" <> space.id
          <> "。"))
        "spaces"

  -- adminCreateSpace, with the rounds in which CreateSpace draws ids
  unfoldable pub admin_create_space : ℕ → Request → Account → Handler
  unfolding ◌<>◌
  admin_create_space rounds req account = with_form account "overview" req λ site.
      (if not (owner_id account req == account.id)
            && not (is_there (get_account (owner_id account req) site.world.state))
          then dash account (failure "目标账号不存在") "overview"
          else own_or_admin account (owner_id account req) "没有权限为其他账号创建 Space" "overview" (
              run
                (create_space host.env now (owner_id account req) rounds (field "name" req)
                  (field "description" req))
                (created account)))
        site

  -- adminToggleSpace
  unfoldable pub admin_toggle_space : Request → Account → Handler
  admin_toggle_space req account = with_form account "overview" req (
      own_or_admin account (target_id account req) "没有权限修改其他账号 Space" "spaces" (
        run
          (set_space_active host.env now (target_id account req) (field "space_id" req)
            (field "active" req == "true"))
          (told account (λ done. "Space 状态已更新") "spaces" "spaces")))

  -- adminSetClientStorageRoot
  unfoldable pub admin_set_client_storage_root : Request → Account → Handler
  admin_set_client_storage_root req account = with_form account "spaces" req (
      own_or_admin account (target_id account req) "没有权限修改其他账号的客户端保存目录" "spaces" (
        run
          (set_client_storage_root host.env now (target_id account req) (field "device_id" req)
            (field "storage_root" req))
          (told account (λ done. "客户端全局 xcloud 保存目录已更新，客户端下一轮状态刷新后生效") "spaces" "spaces")))

  abbrev pub restore_request : Request → RestoreRequest
  restore_request req = record {
    account_id = "";
    space_id = field "space_id" req;
    file_id = field "file_id" req;
    path = field "path" req;
  }

  -- adminRestoreTrash
  unfoldable pub admin_restore_trash : Request → Account → Handler
  admin_restore_trash req account = with_form account "trash" req (
      own_or_admin account (target_id account req) "没有权限恢复其他账号的文件" "trash" (
        run
          (restore_trash host.env now (target_id account req) (restore_request req)
            account.username)
          (told account (λ resp. "文件已从云端回收站恢复，所有客户端下一轮同步会恢复该文件") "trash" "trash")))

  abbrev pub form_settings : Request → SyncSettings
  form_settings req = record {
    realtime_enabled = field "realtime_enabled" req == "on";
    debounce_millis = atoi_default (field "debounce_millis" req) default_sync_debounce_millis;
    interval_seconds = atoi_default (field "interval_seconds" req) default_sync_interval_seconds;
  }

  -- adminUpdateSyncSettings
  unfoldable pub admin_update_sync_settings : Request → Account → Handler
  unfolding atoi_default
  admin_update_sync_settings req account = with_form account "settings" req (
      own_or_admin account (target_id account req) "没有权限修改其他账号的同步规则" "settings" (
        run (set_sync_settings host.env now (target_id account req) (form_settings req))
          (told account (λ done. "同步触发规则已更新") "settings" "settings")))
