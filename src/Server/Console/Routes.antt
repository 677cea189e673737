-- ===== src/Server/Console/Routes.antt =====
-- internal/server/http.go: the settings page, and the routes of the console.
use xcloud.Prelude.{ℕ, String, not, Option, none, some, ◌==◌, if◌then◌else◌, pos, trim_space}
use xcloud.Model.{Account}
use xcloud.Result.{Result, ok, err, config_not_written, row_not_written}
use xcloud.Config.{RuntimeConfig, normalize_config}
use xcloud.Server.Site.{
  Host, Site, Request, failure, success, Answer, Handler, field, render_dashboard, require_login,
  require_admin, admin_logout,
}
use xcloud.Server.Console

-- The routes of the console: its page, with the view that the query names, those that ask for no
-- login, and those that do, the ones for administrators with them.
pub data Route : Type 0 where
  admin : String → Route
  login register logout : Route
  create_account reset_token toggle_account change_password create_space toggle_space : Route
  storage_root restore_trash update_sync_settings update_server_config : Route

-- cfg.Path, or the default where it is blank
abbrev path_or_default : String → String
path_or_default path = if trim_space path == "" then "xcloud-server.json" else path

-- What WriteRuntimeConfigFile writes.
unfoldable pub written_config : RuntimeConfig → RuntimeConfig
unfolding normalize_config trim_space
written_config cfg =
    let normal = normalize_config cfg in record normal { path = path_or_default normal.path }

module _ (host : Host) (now : ℕ) where
  -- WriteRuntimeConfigFile and SaveRuntimeConfig
  unfoldable pub write_config : RuntimeConfig → Site → Result (Unit {0}) × Site
  unfolding written_config
  write_config cfg site =
      if not (host.config_writable cfg)
      then (err config_not_written, site)
      else if not (host.row_writable cfg)
      then (err row_not_written, record site { config_file = written_config cfg })
      else (ok tt, record site { config_file = written_config cfg; config_row = cfg })

  abbrev form_config : RuntimeConfig → Request → RuntimeConfig
  form_config config req =
      let cfg = normalize_config (record config {
        domain = field "domain" req;
        port = Console.atoi_default (field "port" req) (pos 18002);
        data_dir = field "data_dir" req;
        listen_host = field "listen_host" req;
      }) in
      record cfg { path = config.path }

  abbrev config_told : Account → RuntimeConfig → Result (Unit {0}) × Site → Answer × Site
  config_told account cfg (err e, site) =
      render_dashboard host now account (failure (host.error_text e)) "server" site
  config_told account cfg (ok done, site) =
      render_dashboard host now account (success "服务配置已保存。域名立即用于页面提示；端口和 data 目录需要重启服务端进程后生效。")
        "server" (record site { config = cfg })

  abbrev with_server_form : Account → Option String → Handler → Handler
  with_server_form account (some message) next =
      render_dashboard host now account (failure message) "server"
  with_server_form account none next = next

  -- adminUpdateServerConfig
  unfoldable pub admin_update_server_config : Request → Account → Handler
  unfolding Console.atoi_default normalize_config
  admin_update_server_config req account = with_server_form account req.form_error λ site.
      config_told account (form_config site.config req)
        (write_config (form_config site.config req) site)

  -- Handler: what each route does, with the rounds in which CreateSpace draws ids.
  unfoldable pub serve : ℕ → Route → Request → Handler
  serve rounds (admin view) req = Console.admin host now view req
  serve rounds login req = Console.admin_login host now req
  serve rounds register req = Console.admin_register host now req
  serve rounds logout req = admin_logout req
  serve rounds create_account req =
      require_admin host now req (Console.admin_create_account host now req)
  serve rounds reset_token req = require_login req (Console.admin_reset_token host now req)
  serve rounds toggle_account req =
      require_admin host now req (Console.admin_toggle_account host now req)
  serve rounds change_password req = require_login req (Console.admin_change_password host now req)
  serve rounds create_space req = require_login req (Console.admin_create_space host now rounds req)
  serve rounds toggle_space req = require_login req (Console.admin_toggle_space host now req)
  serve rounds storage_root req =
      require_login req (Console.admin_set_client_storage_root host now req)
  serve rounds restore_trash req = require_login req (Console.admin_restore_trash host now req)
  serve rounds update_sync_settings req =
      require_login req (Console.admin_update_sync_settings host now req)
  serve rounds update_server_config req =
      require_admin host now req (admin_update_server_config req)
