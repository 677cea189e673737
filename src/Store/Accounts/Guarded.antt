-- ===== src/Store/Accounts/Guarded.antt =====
-- internal/server/store.go: whom a password or a token lets in.
use xcloud.Prelude.{
  ℕ, String, ◌≡◌, refl, sym, ◌∙◌, ap, inl, inr, Bool, true, false, not, ◌&&◌, ◌||◌, [], ◌∷◌, Option,
  none, some, arith, Dict, Bool-cases, Option-cases, subst, get, Among, if◌then◌else◌,
}
use xcloud.Model.{Account, ClientToken, ServerState}
use xcloud.Result.{ok, ok_inj}
use xcloud.Store.World.{Env, World}
use xcloud.Store.Trash.{try_save}
use xcloud.Store.Accounts.{verify_secret, enabled}
use xcloud.Store.Accounts.Login.{
  logs_in, is_named, find_login, token_account, find_token, find_sync_token, authenticate_found,
  authenticate_sync_token,
}

pub some_inj : {A : Type 0} {a b : A} → some a ≡ some b → a ≡ b
some_inj e = cc

if_none :
    (b : Bool) (account found : Account)
    → ◌≡◌ {A = Option Account} (if b then none else some account) (some found)
    → (account ≡ found) × (b ≡ false)
if_none true account found h = cc
if_none false account found h = (some_inj h, refl)

pub enabled_only :
    (o : Option Account) (found : Account)
    → enabled o ≡ some found
    → (o ≡ some found) × (found.disabled ≡ false)
enabled_only none found h = cc
enabled_only (some account) found h =
    let (same, on) = if_none account.disabled account found h in
    (ap some same, subst (λ a. a.disabled ≡ false) same on)

-- What lets the holder of a token in: the own token of an account of the store, or the token of
-- one of the clients in the store, not revoked, for the account that the store has under its id.
pub data LetsIn (env : Env) (token : String) (s : ServerState) (found : Account) : Type 0 where
  by_account :
      Among found s.accounts
      → verify_secret env token found.sync_token_hash ≡ true
      → LetsIn env token s found
  by_client :
      (client_token : ClientToken)
      → Among client_token s.client_tokens
      → client_token.disabled ≡ false
      → verify_secret env token client_token.token_hash ≡ true
      → get client_token.account_id s.accounts ≡ some found
      → LetsIn env token s found

abbrev Let : (env : Env) (token : String) (s : ServerState) (found : Account) → Type 0
Let env token s found = (found.disabled ≡ false) × LetsIn env token s found

module _ (env : Env) where
  find_login-logs_in :
      (identifier password : String) (accounts : Dict Account) (found : Account)
      → find_login env identifier password accounts ≡ some found
      → logs_in env identifier password found ≡ true
  unfolding find_login
  find_login-logs_in identifier password [] found h = cc
  find_login-logs_in identifier password ((id, account) ∷ accounts) found h =
      elim (Bool-cases (logs_in env identifier password account)) [
        | inl e ↦
            let same : ◌≡◌ {A = Option Account} (some account) (some found) = rw e at h in
            subst (λ a. logs_in env identifier password a ≡ true) (some_inj same) e
        | inr e ↦ find_login-logs_in identifier password accounts found (rw e at h)
      ]

  -- The account that is found is one of those that are looked through.
  find_sync_token-Let :
      (token : String) (s : ServerState) (accounts : Dict Account) (found : Account)
      → ((a : Account) → Among a accounts → Among a s.accounts)
      → find_sync_token env token accounts ≡ some found
      → Let env token s found
  unfolding find_sync_token
  find_sync_token-Let token s [] found inside h = cc
  find_sync_token-Let token s ((id, account) ∷ accounts) found inside h =
      elim (Bool-cases (not account.disabled && verify_secret env token account.sync_token_hash)) [
        | inl e ↦
            let same : ◌≡◌ {A = Option Account} (some account) (some found) = rw e at h in
            let on : account.disabled ≡ false = ground arith in
            let verified : verify_secret env token account.sync_token_hash ≡ true = ground arith in
            subst (Let env token s) (some_inj same)
              (on, by_account (inside account (inl refl)) verified)
        | inr e ↦
            find_sync_token-Let token s accounts found (λ a there. inside a (inr there)) (rw e at h)
      ]

  token_account-Let :
      (token : String) (s : ServerState) (client_token : ClientToken) (found : Account)
      → Among client_token s.client_tokens
      → token_account env token s.accounts client_token ≡ some found
      → Let env token s found
  unfolding token_account
  token_account-Let token s client_token found known h =
      elim (Bool-cases
        (client_token.disabled || not (verify_secret env token client_token.token_hash))) [
          | inl e ↦ let nobody : ◌≡◌ {A = Option Account} none (some found) = rw e at h in cc
          | inr e ↦
              let (there, on) =
                enabled_only (get client_token.account_id s.accounts) found (rw e at h) in
              let usable : client_token.disabled ≡ false = ground arith in
              let verified : verify_secret env token client_token.token_hash ≡ true =
                ground arith in
              (on, by_client client_token known usable verified there)
        ]

  find_token-Let :
      (token : String) (s : ServerState) (tokens : Dict ClientToken) (key : String)
      (client_token : ClientToken) (found : Account)
      → ((t : ClientToken) → Among t tokens → Among t s.client_tokens)
      → find_token env token s.accounts tokens ≡ some (key, client_token, found)
      → Let env token s found
  unfolding find_token
  find_token-Let token s [] key client_token found inside h = cc
  find_token-Let token s ((k, t) ∷ tokens) key client_token found inside h =
      elim (Option-cases (token_account env token s.accounts t)) [
        | inl e ↦
            find_token-Let token s tokens key client_token found (λ u there. inside u (inr there))
              (rw e at h)
        | inr (a, e) ↦
            let same : ◌≡◌ {A = Option (String × ClientToken × Account)} (some (k, t, a))
                (some (key, client_token, found)) =
              rw e at h in
            let it : a ≡ found = ap (λ x. x.2) (some_inj same) in
            token_account-Let token s t found (inside t (inl refl)) (e ∙ ap some it)
      ]

  found-Let :
      (now : ℕ) (token : String) (o : Option (String × ClientToken × Account)) (found : Account)
      (w : World)
      → o ≡ find_token env token w.state.accounts w.state.client_tokens
      → (authenticate_found env now token o w).0 ≡ ok (some found)
      → Let env token w.state found
  unfolding authenticate_found try_save
  found-Let now token none found w e h =
      find_sync_token-Let token w.state w.state.accounts found (λ a there. there) (ok_inj h)
  found-Let now token (some (key, t, a)) found w e h =
      find_token-Let token w.state w.state.client_tokens key t found (λ u there. there)
        (sym e ∙ ap (λ x. some (key, t, x)) (some_inj (ok_inj h)))

-- Whoever a token lets in has an account that is not disabled, and the token is that of this
-- account of the store, or that of one of the store's client tokens, which names this account and is
-- not disabled: no disabled account and no revoked token passes.
pub authenticate_sync_token_guarded :
    (env : Env) (now : ℕ) (token : String) (found : Account) (w : World)
    → (authenticate_sync_token env now token w).0 ≡ ok (some found)
    → (found.disabled ≡ false) × LetsIn env token w.state found
unfolding authenticate_sync_token
authenticate_sync_token_guarded env now token found w h = found-Let env now token _ found w refl h

-- Whoever a password lets in, at the login page or for a new client token, has an account that is
-- not disabled and carries the identifier, and gave the password of that account.
pub find_login_guarded :
    (env : Env) (identifier password : String) (accounts : Dict Account) (found : Account)
    → find_login env identifier password accounts ≡ some found
    → (found.disabled ≡ false)
      × (is_named env identifier found ≡ true)
      × (verify_secret env password found.password_hash ≡ true)
find_login_guarded env identifier password accounts found h =
    let passed = find_login-logs_in env identifier password accounts found h in
    (first passed, second passed, third passed)
  where
    first : logs_in env identifier password found ≡ true → found.disabled ≡ false
    first p = ground arith

    second : logs_in env identifier password found ≡ true → is_named env identifier found ≡ true
    second p = ground arith

    third :
        logs_in env identifier password found ≡ true
        → verify_secret env password found.password_hash ≡ true
    third p = ground arith
