-- ===== src/Server/Sync/Guarded.antt =====
-- internal/server/http.go: which requests of the sync API reach their handler.
use xcloud.Prelude.{ℕ, String, ◌≡◌, ◌⊎◌, Bool, true, false, ◌==◌}
use xcloud.Model.{Account}
use xcloud.Result.{Result, Error}
use xcloud.Store.World.{Env, World}
use xcloud.Store.Version.{space_found}
use xcloud.Store.Accounts.Guarded.{LetsIn}
use xcloud.Server.Sync.{
  Headers, SyncContext, Reply, Handler, token_of, space_of, context_of, is_bad_space,
}

-- Two worlds with the same accounts, spaces, files, events and chunks.
pub record SameContent (before after : World) : Type 0 where
  pub accounts : after.state.accounts ≡ before.state.accounts
  pub spaces : after.state.spaces ≡ before.state.spaces
  pub files : after.state.files ≡ before.state.files
  pub events : after.state.events ≡ before.state.events
  pub chunks : after.chunk_files ≡ before.chunk_files

-- What syncAuth has checked of a request whose handler runs.
pub record IsAdmitted (env : Env) (h : Headers) (is_folder : Bool) (w : World) (ctx : SyncContext)
    : Type 0 where
  pub enabled : ctx.account.disabled ≡ false
  pub let_in : LetsIn env (token_of h) w.state ctx.account
  pub syncing : ctx.account.sync_enabled ≡ true
  pub in_space : (ctx.space_id ≡ space_of h) × (is_bad_space ctx.space_id ≡ false)
  pub placed :
      (is_folder ≡ true)
      ⊎ ((ctx.device_id == "") ≡ false)
        × ((ctx.root_path == "") ≡ false)
        × (space_found ctx.account.id ctx.space_id w.state ≡ true)

module _ (env : Env) (error_text : Error → String) (now : ℕ) (h : Headers) where
  module _ (is_folder : Bool) (next : SyncContext → Handler) (w : World) where
    -- A request is turned away with the content as it is, or its handler runs with a context that
    -- was checked.
    abbrev pub Outcome : Reply × World → Type 0
    Outcome x =
        SameContent w x.1
        ⊎ (ctx : SyncContext) × (later : World) × IsAdmitted env h is_folder w ctx
          × SameContent w later
          × (x ≡ next ctx later)

    module _ (account : Account) (v : World) (same : SameContent w v)
        (enabled : account.disabled ≡ false) (let_in : LetsIn env (token_of h) w.state account)
        (syncing : account.sync_enabled ≡ true) (in_space : is_bad_space (space_of h) ≡ false) where
      abbrev ctx : SyncContext
      ctx = context_of h account
