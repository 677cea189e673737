-- ===== src/Server/Session.antt =====
-- internal/server/http.go: a session of the console, from the login to the logout.
use xcloud.Prelude.{String, ◌≡◌, false, none, some, ◌==◌, get}
use xcloud.Model.{Account}
use xcloud.Server.Site.{Site, Request, Answer, to_admin, session_account, admin_logout}

-- What a login leaves: the browser is sent to the console with a new cookie, and whatever it asks
-- for with this cookie is asked for by the account, until it logs out with it. The sessions of other
-- cookies go on.
pub record IsLoggedIn (account : Account) (before : Site) (answer : Answer) (after : Site)
    : Type 0 where
  pub cookie : String
  pub answered : answer ≡ record { page = to_admin; cookie = some cookie }
  pub held : (req : Request) → req.cookie ≡ some cookie → session_account req after ≡ some account
  pub ended :
      (req : Request)
      → req.cookie ≡ some cookie
      → session_account req (admin_logout req after).1 ≡ none
  pub others :
      (other : String)
      → (cookie == other) ≡ false
      → get other after.sessions ≡ get other before.sessions
