-- ===== src/Server/Tests.antt =====
-- The theorems about the console and the sync API at a small site.
use Prim.Native.Char.{code}
use xcloud.Prelude.{
  ℕ, zero, suc, ◌==◌, ap, inl, inr, Bool-cases, eq_iff, arith, String, [], ◌∷◌, ◌≡◌, refl, true,
  false, some, none, get,
}
use xcloud.Model.{Account, default_sync_settings}
use xcloud.Result.{Error}
use xcloud.Config.{default_runtime_config}
use xcloud.Store.World.{World}
use xcloud.Store.Accounts.{get_account}
use xcloud.Store.Samples.{sample_env, empty_state, world_of, ones}
use xcloud.Server.Site.{Host, Site, Request, session_account}
use xcloud.Server.Console.Routes
use xcloud.Server.Console.Routes.{serve}
use xcloud.Server.Console.Guarded.{may_act_on, serve_guarded}
use xcloud.Server.Sync.{Headers, Handler, SyncContext, handle, get_files}

abbrev sample_account : String → Account
sample_account id = record {
  id = id;
  username = id;
  display_name = id;
  email = "";
  password_hash = "";
  sync_token_hash = ones;
  is_admin = false;
  disabled = false;
  sync_enabled = true;
  sync_settings = default_sync_settings;
  created_at = 1;
  updated_at = 1;
}

abbrev sample_world : World
sample_world =
    world_of
      (record empty_state { accounts = ("u", sample_account "u") ∷ ("v", sample_account "v") ∷ [] })

abbrev error_text : Error → String
error_text e = "error"

abbrev sample_host : Host
sample_host = record {
  env = sample_env;
  error_text = error_text;
  config_writable = λ cfg. true;
  row_writable = λ cfg. true;
}

-- `u` is logged in with the cookie `c`.
abbrev sample_site : Site
sample_site = record {
  world = sample_world;
  sessions = ("c", "u") ∷ [];
  config = default_runtime_config "";
  config_file = default_runtime_config "";
  config_row = default_runtime_config "";
}

-- A request to reset the token of `v`.
abbrev sample_request : Request
sample_request = record { cookie = some "c"; form_error = none; form = ("account_id", "v") ∷ [] }

session_of_u : session_account sample_request sample_site ≡ some (sample_account "u")
unfolding session_account get get_account
session_of_u = refl

foreign_account : may_act_on "v" (session_account sample_request sample_site) ≡ false
foreign_account = rw session_of_u refl

abbrev head_of : String → ℕ
head_of String.[] = 0
head_of (String.◌∷◌ c s) = code c

ids_fresh : (n : ℕ) → (sample_env.random_id n == "v") ≡ false
ids_fresh zero = refl
ids_fresh (suc n) = elim (Bool-cases (sample_env.random_id (suc n) == "v")) [
  | inl e ↦
      let same : head_of (sample_env.random_id (suc n)) ≡ head_of "v" =
        ap head_of ((eq_iff (sample_env.random_id (suc n)) "v").0 e) in
      absurd (omega arith)
  | inr e ↦ e
]

serve_guarded_example :
    get "v"
      (serve sample_host 9 1 Routes.reset_token sample_request sample_site).1.world.state.accounts
    ≡ get "v" sample_site.world.state.accounts
serve_guarded_example =
    serve_guarded sample_host 9 1 Routes.reset_token sample_request "v" sample_site (λ e. ids_fresh)
      foreign_account

abbrev sample_headers : Headers
sample_headers = record {
  authorization = "Bearer t";
  space = "s";
  space_query = "";
  device = "d";
  root = "/r";
}

abbrev lists_files : SyncContext → Handler
lists_files ctx = handle sample_env error_text 9 ctx get_files

-- `u`, whose password has the hash that every text has.
abbrev account_with_password : Account
account_with_password = record (sample_account "u") { password_hash = ones }

abbrev login_site : Site
login_site = record sample_site {
  world = world_of (record empty_state { accounts = ("u", account_with_password) ∷ [] });
}

abbrev login_request : Request
login_request = record {
  cookie = none;
  form_error = none;
  form = ("identifier", " u") ∷ ("password", "secret") ∷ [];
}
