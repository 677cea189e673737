-- ===== src/Server/Console/Guarded.antt =====
-- internal/server/http.go: whose account a request of the console can change.
use xcloud.Prelude.{ℕ, String, ◌≡◌, refl, Bool, false, ◌||◌, Option, none, some, ◌==◌, get, arith}
use xcloud.Model.{Account}
use xcloud.Store.Accounts.Others.{Holds}
use xcloud.Server.Site.{
  Host, Site, Request, Answer, Handler, session_account, require_login, require_admin, let_in,
}
use xcloud.Server.Console.Routes
use xcloud.Server.Console.Routes.{Route, serve}
use xcloud.Server.Console.Leaves.{
  Leaves, Leaves-then, Leaves-dash, Leaves-reset_token, Leaves-change_password, Leaves-create_space,
  Leaves-toggle_space, Leaves-storage_root, Leaves-restore_trash, Leaves-update_sync_settings,
}
use xcloud.Server.Console.Open.{Leaves-admin, Leaves-login, Leaves-register, Leaves-logout}

-- Whether the account that is logged in may act on the account `b`: it is an administrator, or `b`.
abbrev pub may_act_on : String → Option Account → Bool
may_act_on b none = false
may_act_on b (some account) = account.is_admin || account.id == b

module _ (host : Host) (now rounds : ℕ) (req : Request) (b : String) (held : Option Account) where
  abbrev Unchanged : Answer × Site → Type 0
  Unchanged (answer, site) = Holds b held site.world.state

  let_in-Unchanged :
      (next : Account → Handler) (o : Option Account) (site : Site)
      → may_act_on b o ≡ false
      → ((account : Account)
          → (account.id == b) ≡ false
          → account.is_admin ≡ false
          → Leaves b held (next account))
      → Holds b held site.world.state
      → Holds b held (let_in next o site).1.world.state
  let_in-Unchanged next none site apart leaves h = h
  let_in-Unchanged next (some account) site apart leaves h =
      (leaves account (other account apart) (common account apart)).step site h
    where
      other : (a : Account) → (a.is_admin || a.id == b) ≡ false → (a.id == b) ≡ false
      other a e = ground arith

      common : (a : Account) → (a.is_admin || a.id == b) ≡ false → a.is_admin ≡ false
      common a e = ground arith

  logged_in :
      (next : Account → Handler) (site : Site)
      → may_act_on b (session_account req site) ≡ false
      → ((account : Account)
          → (account.id == b) ≡ false
          → account.is_admin ≡ false
          → Leaves b held (next account))
      → Holds b held site.world.state
      → Holds b held (require_login req next site).1.world.state
  unfolding require_login
  logged_in next site = let_in-Unchanged next (session_account req site) site

  administrators_only :
      (next : Account → Handler) (site : Site)
      → may_act_on b (session_account req site) ≡ false
      → Holds b held site.world.state
      → Holds b held (require_admin host now req next site).1.world.state
  unfolding require_admin
  administrators_only next site apart = logged_in _ site apart λ account other common.
      Leaves-then b held _ _ (next account) (rw common refl)
        (Leaves-dash b held host now account _ _)

  served :
      (route : Route) (site : Site)
      → (route ≡ Routes.register → (n : ℕ) → (host.env.random_id n == b) ≡ false)
      → may_act_on b (session_account req site) ≡ false
      → Holds b held site.world.state
      → Holds b held (serve host now rounds route req site).1.world.state
  unfolding serve
  served (Routes.admin view) site fresh apart = (Leaves-admin b held host now view req).step site
  served Routes.login site fresh apart = (Leaves-login b held host now req).step site
  served Routes.register site fresh apart =
      (Leaves-register b held host now req (fresh refl)).step site
  served Routes.logout site fresh apart = (Leaves-logout b held host req).step site
  served Routes.create_account site fresh apart = administrators_only _ site apart
  served Routes.toggle_account site fresh apart = administrators_only _ site apart
  served Routes.update_server_config site fresh apart = administrators_only _ site apart
  served Routes.reset_token site fresh apart =
      logged_in _ site apart (λ a. Leaves-reset_token b held host now a req)
  served Routes.change_password site fresh apart =
      logged_in _ site apart (λ a. Leaves-change_password b held host now a req)
  served Routes.create_space site fresh apart =
      logged_in _ site apart (λ a o c. Leaves-create_space b held host now a req o c rounds)
  served Routes.toggle_space site fresh apart =
      logged_in _ site apart (λ a. Leaves-toggle_space b held host now a req)
  served Routes.storage_root site fresh apart =
      logged_in _ site apart (λ a. Leaves-storage_root b held host now a req)
  served Routes.restore_trash site fresh apart =
      logged_in _ site apart (λ a. Leaves-restore_trash b held host now a req)
  served Routes.update_sync_settings site fresh apart =
      logged_in _ site apart (λ a. Leaves-update_sync_settings b held host now a req)

-- Whatever route of the console is asked for and with whatever form, a request whose session is
-- that of no account, or of one that is neither an administrator nor the account `b`, leaves the
-- record of `b` as it is: its password, its sync token, its settings and whether it is disabled. To
-- register makes an account under an id that is drawn; on that route no such id may be `b`.
pub serve_guarded :
    (host : Host) (now rounds : ℕ) (route : Route) (req : Request) (b : String) (site : Site)
    → (route ≡ Routes.register → (n : ℕ) → (host.env.random_id n == b) ≡ false)
    → may_act_on b (session_account req site) ≡ false
    → get b (serve host now rounds route req site).1.world.state.accounts
      ≡ get b site.world.state.accounts
serve_guarded host now rounds route req b site fresh apart =
    (served host now rounds req b (get b site.world.state.accounts) route site fresh apart
      (record { same = refl })).same
