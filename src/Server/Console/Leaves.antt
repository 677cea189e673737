-- ===== src/Server/Console/Leaves.antt =====
-- internal/server/http.go: what the handlers behind a login leave of an account that is not theirs.
use xcloud.Prelude.{
  ℕ, String, ◌≡◌, refl, inl, inr, Bool, true, false, not, ◌&&◌, List, [], ◌∷◌, Option, none, some,
  ◌==◌, if◌then◌else◌, Bool-cases, pos, eq_iff,
}
use xcloud.Model.{Account, SyncSpace}
use xcloud.Result.{Result, ok, err}
use xcloud.Store.World.{Exec}
use xcloud.Store.World.Keeps.{Keeps, Keeps-bind, Keeps-pure}
use xcloud.Store.Accounts.{get_account}
use xcloud.Store.Spaces.{create_space}
use xcloud.Store.Accounts.Others.{
  Holds, Holds-list_spaces, Holds-list_trash, Holds-set_sync_settings, Holds-change_password,
  Holds-reset_sync_token, Holds-create_space, Holds-set_space_active, Holds-set_client_storage_root,
}
use xcloud.Store.Accounts.Others.Restored.{Holds-restore_trash}
use xcloud.Server.Site.{
  field, Host, Site, Request, Flash, Page, Handler, unanswered, failure, shows, run, show_account,
  show_accounts, render_dashboard,
}
use xcloud.Server.Console.{
  on_form_error, target_id, dash, told, with_form, own_or_admin, owner_id, created, reset_of,
  is_there, admin_reset_token, admin_change_password, admin_create_space, admin_toggle_space,
  admin_set_client_storage_root, admin_restore_trash, admin_update_sync_settings,
}

module _ (b : String) (held : Option Account) where
  -- From a site with `Holds` the handler ends with one, whatever it answers.
  pub record Leaves (m : Handler) : Type 0 where
    pub step : (site : Site) → Holds b held site.world.state → Holds b held (m site).1.world.state

  pub Leaves-shows : (page : Page) → Leaves (shows page)
  Leaves-shows page = record { step = λ site h. h }

  pub Leaves-if : (c : Bool) (m n : Handler) → Leaves m → Leaves n → Leaves (if c then m else n)
  Leaves-if true m n lm ln = lm
  Leaves-if false m n lm ln = ln

  pub Leaves-then : (c : Bool) (m n : Handler) → c ≡ true → Leaves m → Leaves (if c then m else n)
  Leaves-then true m n e lm = lm
  Leaves-then false m n e lm = cc

  pub Leaves-run :
      {A : Type 0} (m : Exec A) (k : Result A → Handler)
      → Keeps (Holds b held) m
      → ((r : Result A) → Leaves (k r))
      → Leaves (run m k)
  Leaves-run m k km kk = record {
    step = λ site h. (kk (m site.world).0).step _ (km.step site.world h);
  }

  pub Leaves-on_form_error :
      (o : Option String) (refuse : String → Handler) (m : Handler)
      → ((message : String) → Leaves (refuse message))
      → Leaves m
      → Leaves (on_form_error o refuse m)
  Leaves-on_form_error none refuse m lr lm = lm
  Leaves-on_form_error (some message) refuse m lr lm = lr message

  module _ (host : Host) (now : ℕ) where
    Keeps-show_account : (account : Account) → Keeps (Holds b held) (show_account host now account)
    unfolding show_account
    Keeps-show_account account =
        Keeps-bind _ _ (Holds-list_spaces b held host.env now account.id) λ _.
          Keeps-bind _ _ (Holds-list_trash b held host.env now account.id (pos 200))
            λ _. Keeps-pure tt

    Keeps-show_accounts :
        (accounts : List Account) → Keeps (Holds b held) (show_accounts host now accounts)
    unfolding show_accounts
    Keeps-show_accounts [] = Keeps-pure tt
    Keeps-show_accounts (account ∷ accounts) =
        Keeps-bind _ _ (Keeps-show_account account) λ _. Keeps-show_accounts accounts

    pub Leaves-dash :
        (account : Account) (flash : Flash) (view : String)
        → Leaves (render_dashboard host now account flash view)
    Leaves-dash account flash view = record {
      step = unfold render_dashboard in λ site h. (Keeps-show_accounts _).step site.world h;
    }

    Leaves-told :
        {A : Type 0} (account : Account) (text : A → String) (view error_view : String)
        (r : Result A)
        → Leaves (told host now account text view error_view r)
    Leaves-told account text view error_view (ok a) = Leaves-dash account _ view
    Leaves-told account text view error_view (err e) = Leaves-dash account _ error_view

    module _ (account : Account) (req : Request) (other : (account.id == b) ≡ false)
        (common : account.is_admin ≡ false) where
      Leaves-with_form :
          (view : String) (m : Handler) → Leaves m → Leaves (with_form host now account view req m)
      Leaves-with_form view m lm =
          Leaves-on_form_error req.form_error _ m (λ message. Leaves-dash account _ view) lm

      -- For an account that is no administrator the target is its own.
      Leaves-own_or_admin :
          (id text view : String) (m : Handler)
          → ((id == b) ≡ false → Leaves m)
          → Leaves (own_or_admin host now account id text view m)
      Leaves-own_or_admin id text view m lm = elim (Bool-cases (id == account.id)) [
        | inl own ↦ rw own (lm (rw ((eq_iff id account.id).0 own) other))
        | inr foreign ↦
            Leaves-then _ _ m (rw (foreign, common) refl) (Leaves-dash account (failure text) view)
      ]

      Leaves-reset_of :
          (id : String) (o : Option Account)
          → (id == b) ≡ false
          → Leaves (reset_of host now account id o)
      Leaves-reset_of id none apart = Leaves-dash account _ _
      Leaves-reset_of id (some target) apart =
          Leaves-run _ _ (Holds-reset_sync_token b held host.env now id apart)
            (Leaves-told account _ _ _)

      pub Leaves-reset_token : Leaves (admin_reset_token host now req account)
      unfolding admin_reset_token
      Leaves-reset_token = Leaves-with_form _ _ (
          Leaves-own_or_admin (target_id account req) _ _ _ λ apart. record {
            step = λ site. (Leaves-reset_of (target_id account req) _ apart).step site;
          })

      pub Leaves-change_password : Leaves (admin_change_password host now req account)
      unfolding admin_change_password
      Leaves-change_password = Leaves-with_form _ _ (
          Leaves-if _ _ _ (Leaves-dash account _ _) (
            Leaves-run _ _ (Holds-change_password b held host.env now account.id other _ _)
              (Leaves-told account _ _ _)))

      Leaves-created : (r : Result (Option SyncSpace)) → Leaves (created host now account r)
      Leaves-created (ok none) = Leaves-shows unanswered
      Leaves-created (err e) = Leaves-dash account _ _
      Leaves-created (ok (some space)) = Leaves-dash account _ _

      pub Leaves-create_space :
          (rounds : ℕ) → Leaves (admin_create_space host now rounds req account)
      unfolding admin_create_space
      Leaves-create_space rounds =
          Leaves-with_form _ _ (record { step = λ site. (chosen site).step site })
        where
          chosen :
              (site : Site)
              → Leaves (
                  if not (owner_id host now account req == account.id)
                    && not (
                        is_there host now
                          (get_account (owner_id host now account req) site.world.state))
                  then dash host now account (failure "目标账号不存在") "overview"
                  else own_or_admin host now account
                      (owner_id host now account req)
                      "没有权限为其他账号创建 Space"
                      "overview"
                      (run
                        (create_space host.env now
                          (owner_id host now account req)
                          rounds
                          (field "name" req)
                          (field "description" req))
                        (created host now account)))
          chosen site = Leaves-if _ _ _ (Leaves-dash account _ _) (
              Leaves-own_or_admin (owner_id host now account req) _ _ _ λ apart.
                Leaves-run _ _ (Holds-create_space b held host.env now _ _ _ _) Leaves-created)

      pub Leaves-toggle_space : Leaves (admin_toggle_space host now req account)
      unfolding admin_toggle_space
      Leaves-toggle_space = Leaves-with_form _ _ (
          Leaves-own_or_admin (target_id account req) _ _ _ λ apart.
            Leaves-run _ _ (Holds-set_space_active b held host.env now _ _ _)
              (Leaves-told account _ _ _))

      pub Leaves-storage_root : Leaves (admin_set_client_storage_root host now req account)
      unfolding admin_set_client_storage_root
      Leaves-storage_root = Leaves-with_form _ _ (
          Leaves-own_or_admin (target_id account req) _ _ _ λ apart.
            Leaves-run _ _ (Holds-set_client_storage_root b held host.env now _ _ _)
              (Leaves-told account _ _ _))

      pub Leaves-restore_trash : Leaves (admin_restore_trash host now req account)
      unfolding admin_restore_trash
      Leaves-restore_trash = Leaves-with_form _ _ (
          Leaves-own_or_admin (target_id account req) _ _ _ λ apart.
            Leaves-run _ _ (Holds-restore_trash b held host.env now _ _ _)
              (Leaves-told account _ _ _))

      pub Leaves-update_sync_settings : Leaves (admin_update_sync_settings host now req account)
      unfolding admin_update_sync_settings
      Leaves-update_sync_settings = Leaves-with_form _ _ (
          Leaves-own_or_admin (target_id account req) _ _ _ λ apart.
            Leaves-run _ _ (Holds-set_sync_settings b held host.env now _ apart _)
              (Leaves-told account _ _ _))
