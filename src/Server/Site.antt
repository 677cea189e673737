-- ===== src/Server/Site.antt =====
-- internal/server/http.go: what the server keeps, the sessions of its console, and its pages.
use xcloud.Prelude.{
  ℕ, String, Bool, not, List, [], ◌∷◌, Option, none, some, ◌==◌, if◌then◌else◌, Dict, get, put,
  erase, pos,
}
use xcloud.Model.{Account, ServerState}
use xcloud.Result.{Result, ok, err, Error}
use xcloud.Config.{RuntimeConfig}
use xcloud.Store.World.{Env, World, Exec, pure, ◌>>◌}
use xcloud.Store.Accounts.{get_account, new_token}
use xcloud.Store.Lists.{list_accounts, list_spaces}
use xcloud.Store.Trash.Restore.{list_trash}

-- What the server takes from outside beside what the store takes: an error's text, and whether the
-- settings can be written to their file and to the database.
pub record Host : Type 0 where
  pub env : Env
  pub error_text : Error → String
  pub config_writable : RuntimeConfig → Bool
  pub row_writable : RuntimeConfig → Bool

-- Server, with its store and the settings that are in their file and in the database; `sessions`
-- holds account ids by cookie.
pub record Site : Type 0 where
  pub world : World
  pub sessions : Dict String
  pub config : RuntimeConfig
  pub config_file : RuntimeConfig
  pub config_row : RuntimeConfig

-- A request of the console: its session cookie, the error of its form or none, and the form.
pub record Request : Type 0 where
  pub cookie : Option String
  pub form_error : Option String
  pub form : Dict String

-- flashMessage
pub data Flash : Type 0 where
  no_flash : Flash
  failure success : String → Flash

-- A page: a redirect to /admin, the page to log in or to register with a message, or the dashboard
-- of an account with a message and a view. `unanswered` stands for a handler that still draws ids.
pub data Page : Type 0 where
  to_admin unanswered : Page
  auth_page : String → String → Page
  dashboard : Account → Flash → String → Page

-- The page and the session cookie that is set with it; an empty cookie takes the client's away.
pub record Answer : Type 0 where
  pub page : Page
  pub cookie : Option String

abbrev pub Handler : Type 0
Handler = Site → Answer × Site

abbrev value_or_empty : Option String → String
value_or_empty none = ""
value_or_empty (some value) = value

-- r.Form.Get
abbrev pub field : String → Request → String
field name req = value_or_empty (get name req.form)

abbrev pub shows : Page → Handler
shows page site = (record { page = page; cookie = none }, site)

-- An operation of the store, and what is done with its result.
abbrev pub run_with : {A : Type 0} → (Result A → Handler) → Site → Result A × World → Answer × Site
run_with k site (r, w) = k r (record site { world = w })

abbrev pub run : {A : Type 0} → Exec A → (Result A → Handler) → Handler
run m k site = run_with k site (m site.world)

module _ (host : Host) (now : ℕ) where
  -- What the dashboard lists of one account.
  unfoldable pub show_account : Account → Exec (Unit {0})
  show_account account = do
    list_spaces host.env now account.id
    list_trash host.env now account.id (pos 200)
    pure tt

  unfoldable pub show_accounts : List Account → Exec (Unit {0})
  show_accounts [] = pure tt
  show_accounts (account ∷ accounts) = do show_account account; show_accounts accounts

  abbrev shown : Account → ServerState → List Account
  shown account s = if account.is_admin then list_accounts s else account ∷ []

  -- renderDashboard; what it changes is the trash, whose lists drop what is too old.
  unfoldable pub render_dashboard : Account → Flash → String → Handler
  render_dashboard account flash view site =
      run (show_accounts (shown account site.world.state))
        (λ r. shows (dashboard account flash view)) site

-- sessionAccount
abbrev account_of_session : String → ServerState → Option Account
account_of_session account_id s = if account_id == "" then none else get_account account_id s

abbrev session_of_cookie : Option String → Site → Option Account
session_of_cookie none site = none
session_of_cookie (some cookie) site =
    if cookie == ""
    then none
    else account_of_session (value_or_empty (get cookie site.sessions)) site.world.state

unfoldable pub session_account : Request → Site → Option Account
session_account req site = session_of_cookie req.cookie site

-- setSession, with the page that is answered: both write the same response.
abbrev with_cookie : String → Answer × Site → Answer × Site
with_cookie cookie (answer, site) = (record answer { cookie = some cookie }, site)

abbrev pub opened : String → Handler → Result String → Handler
opened account_id next (err e) site = next site
opened account_id next (ok cookie) site =
    with_cookie cookie (next (record site { sessions = put cookie account_id site.sessions }))

unfoldable pub open_session : Host → String → Handler → Handler
open_session host account_id next = run (new_token host.env) (opened account_id next)

-- delete(s.sessions, cookie.Value)
abbrev closed : Option String → Dict String → Dict String
closed none sessions = sessions
closed (some cookie) sessions = erase cookie sessions

-- adminLogout
unfoldable pub admin_logout : Request → Handler
admin_logout req site = (
  record { page = to_admin; cookie = some "" },
  record site { sessions = closed req.cookie site.sessions },
)

abbrev pub let_in : (Account → Handler) → Option Account → Handler
let_in next none = shows to_admin
let_in next (some account) = next account

-- requireLogin
unfoldable pub require_login : Request → (Account → Handler) → Handler
require_login req next site = let_in next (session_account req site) site

-- requireAdmin
unfoldable pub require_admin : Host → ℕ → Request → (Account → Handler) → Handler
require_admin host now req next = require_login req λ account.
    if not account.is_admin
    then render_dashboard host now account (failure "需要管理员权限") "overview"
    else next account
