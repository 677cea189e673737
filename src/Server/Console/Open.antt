-- ===== src/Server/Console/Open.antt =====
-- internal/server/http.go: what the routes that ask for no login leave of an account.
use xcloud.Prelude.{ℕ, String, ◌≡◌, false, not, Option, none, some, ◌==◌}
use xcloud.Model.{Account}
use xcloud.Result.{Result, ok, err}
use xcloud.Store.Accounts.Login.{authenticate_password}
use xcloud.Store.Accounts.Others.Created.{Holds-token, Holds-create_account}
use xcloud.Server.Site.{
  field, Host, Request, Handler, to_admin, opened, open_session, session_account, admin_logout,
}
use xcloud.Server.Console.{admin_login, admin_register, admin, entered, registered, welcomed}
use xcloud.Server.Console.Leaves.{
  Leaves, Leaves-shows, Leaves-if, Leaves-run, Leaves-on_form_error, Leaves-dash,
}

module _ (b : String) (held : Option Account) (host : Host) where
  Leaves-opened :
      (account_id : String) (next : Handler) (r : Result String)
      → Leaves b held next
      → Leaves b held (opened account_id next r)
  Leaves-opened account_id next (err e) l = record { step = l.step }
  Leaves-opened account_id next (ok cookie) l = record { step = λ site h. l.step _ h }

  Leaves-open_session :
      (account_id : String) (next : Handler)
      → Leaves b held next
      → Leaves b held (open_session host account_id next)
  unfolding open_session
  Leaves-open_session account_id next l =
      Leaves-run b held _ (opened account_id next) (Holds-token b held host.env)
        λ r. Leaves-opened account_id next r l

  pub Leaves-logout : (req : Request) → Leaves b held (admin_logout req)
  Leaves-logout req = record { step = unfold admin_logout in λ site h. h }

  module _ (now : ℕ) where
    Leaves-entered : (o : Option Account) → Leaves b held (entered host now o)
    Leaves-entered none = Leaves-shows b held _
    Leaves-entered (some account) = Leaves-open_session account.id _ (Leaves-shows b held to_admin)

    pub Leaves-login : (req : Request) → Leaves b held (admin_login host now req)
    unfolding admin_login
    Leaves-login req =
        Leaves-on_form_error b held req.form_error _ _ (λ message. Leaves-shows b held _)
          (record {
            step = λ site.
                (Leaves-entered (
                    authenticate_password host.env (field "identifier" req) (field "password" req)
                      site.world.state)).step
                  site;
          })

    Leaves-welcomed :
        (view : String) (o : Option Account) → Leaves b held (welcomed host now view o)
    Leaves-welcomed view none = Leaves-shows b held _
    Leaves-welcomed view (some account) = Leaves-dash b held host now account _ _

    pub Leaves-admin : (view : String) (req : Request) → Leaves b held (admin host now view req)
    Leaves-admin view req = record {
      step = unfold admin in λ site. (Leaves-welcomed view (session_account req site)).step site;
    }

    Leaves-registered : (r : Result (Account × String)) → Leaves b held (registered host now r)
    Leaves-registered (err e) = Leaves-shows b held _
    Leaves-registered (ok (account, token)) =
        Leaves-open_session account.id _ (Leaves-dash b held host now account _ _)

    -- Where no id that is drawn is `b`.
    pub Leaves-register :
        (req : Request)
        → ((n : ℕ) → (host.env.random_id n == b) ≡ false)
        → Leaves b held (admin_register host now req)
    unfolding admin_register
    Leaves-register req fresh =
        Leaves-on_form_error b held req.form_error _ _ (λ message. Leaves-shows b held _)
          (Leaves-if b held (not (field "password" req == field "confirm_password" req)) _ _
            (Leaves-shows b held _)
            (Leaves-run b held _ (registered host now)
              (Holds-create_account b held host.env fresh now (field "username" req)
                (field "email" req) (field "display_name" req) (field "password" req) false)
              Leaves-registered))
