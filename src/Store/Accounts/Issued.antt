-- ===== src/Store/Accounts/Issued.antt =====
-- internal/server/store.go: a token that IssueClientToken gives out lets its holder in.
use text.Mathlib.TextPositions.{eq_refl}
use xcloud.Prelude.{
  ℕ, ◌+◌, String, ◌≡◌, refl, sym, ◌∙◌, ap, inl, inr, Bool, true, false, not, ◌&&◌, List, [], ◌∷◌,
  Option, none, some, ◌==◌, Dict, Bool-cases, Option-cases, trim_space, get, get-put_self,
  if◌then◌else◌, ◌<>◌, eq_iff, append-ne_empty,
}
use xcloud.Model.{Account, ClientToken}
use xcloud.Result.{Result, ok, err, storage_root_not_absolute}
use xcloud.Store.World.{Env, World}
use xcloud.Store.World.Keeps.{save_then}
use xcloud.Store.Trash.{try_save}
use xcloud.Store.ClientPath.{is_client_absolute_path, clean_client_path}
use xcloud.Store.Accounts.{verify_secret, hash_secret, new_token}
use xcloud.Store.Accounts.Login.{
  logs_in, find_login, token_account, find_token, client_token_of, authenticate_found,
  authenticate_sync_token, issue_token, issue_found, issue_client_token,
}
use xcloud.Store.Accounts.Guarded.{some_inj, find_login_guarded}

-- Each account stands under its own id, and no id stands twice.
abbrev pub Keyed : Dict Account → Type 0
Keyed [] = Unit
Keyed ((key, account) ∷ accounts) = (key ≡ account.id) × (get key accounts ≡ none) × Keyed accounts

if_enabled :
    (b : Bool) (account : Account)
    → b ≡ false
    → ◌≡◌ {A = Option Account} (if b then none else some account) (some account)
if_enabled true account h = cc
if_enabled false account h = refl

module _ (env : Env) where
  pub find_login-get :
      (identifier password : String) (accounts : Dict Account) (found : Account)
      → Keyed accounts
      → find_login env identifier password accounts ≡ some found
      → get found.id accounts ≡ some found
  unfolding find_login get
  find_login-get identifier password [] found k h = cc
  find_login-get identifier password ((key, account) ∷ accounts) found k h =
      elim (Bool-cases (logs_in env identifier password account)) [
        | inl e ↦
            let same : ◌≡◌ {A = Option Account} (some account) (some found) = rw e at h in
            let it = some_inj same in
            let here : (key == found.id) ≡ true =
              (eq_iff key found.id).1 (k.0 ∙ ap (λ a. a.id) it) in
            rw here same
        | inr e ↦
            let there = find_login-get identifier password accounts found k.2 (rw e at h) in
            elim (Bool-cases (key == found.id)) [
              | inr f ↦ rw f there
              | inl f ↦
                  let same = (eq_iff key found.id).0 f in
                  let clash : ◌≡◌ {A = Option Account} none (some found) =
                    sym k.1 ∙ ap (λ id. get id accounts) same ∙ there in
                  cc
            ]
      ]

  find_token-found :
      (token : String) (accounts : Dict Account) (tokens : Dict ClientToken) (key : String)
      (client_token : ClientToken) (account : Account)
      → get key tokens ≡ some client_token
      → token_account env token accounts client_token ≡ some account
      → (x : String × ClientToken × Account) × (find_token env token accounts tokens ≡ some x)
  unfolding find_token get
  find_token-found token accounts [] key client_token account h e = cc
  find_token-found token accounts ((k, t) ∷ tokens) key client_token account h e =
      elim (Option-cases (token_account env token accounts t)) [
        | inr (a, f) ↦ ((k, t, a), rw f refl)
        | inl f ↦ elim (Bool-cases (k == key)) [
          | inl g ↦
              let same : ◌≡◌ {A = Option ClientToken} (some t) (some client_token) = rw g at h in
              let clash : ◌≡◌ {A = Option Account} none (some account) =
                sym f ∙ ap (token_account env token accounts) (some_inj same) ∙ e in
              cc
          | inr g ↦
              rw f (find_token-found token accounts tokens key client_token account (rw g at h) e)
        ]
      ]

  -- A fresh token of an enabled account is accepted.
  new_token-accepted :
      (id device_id hostname token : String) (now : ℕ) (accounts : Dict Account) (account : Account)
      → (token == "") ≡ false
      → (hash_secret env token == "") ≡ false
      → account.disabled ≡ false
      → get account.id accounts ≡ some account
      → token_account env token accounts
          (client_token_of env id account.id device_id hostname token now)
        ≡ some account
  unfolding token_account verify_secret
  new_token-accepted id device_id hostname token now accounts account t h on found =
      rw (t, h, eq_refl (hash_secret env token), found) (if_enabled account.disabled account on)

  abbrev stored : ℕ → Account → String → String → World → String → Option ClientToken
  stored now account device_id hostname w token = some (
      client_token_of env (env.random_id (w.issued + 1 + 1)) account.id device_id hostname token
        now)

  -- The token stands in the store, and the accounts are as before.
  issued :
      (now : ℕ) (account answered : Account) (device_id hostname storage_root token told : String)
      (w : World)
      → (issue_token env now account device_id hostname storage_root w).0
        ≡ ok (answered, token, told)
      → let after = (issue_token env now account device_id hostname storage_root w).1 in
        (token ≡ env.random_id w.issued <> env.random_id (w.issued + 1))
        × (after.state.accounts ≡ w.state.accounts)
        × (get (env.random_id (w.issued + 1 + 1)) after.state.client_tokens
            ≡ some (
                client_token_of env
                  (env.random_id (w.issued + 1 + 1))
                  account.id
                  device_id
                  hostname
                  token
                  now))
  unfolding issue_token new_token
  issued now account answered device_id hostname storage_root token told w h =
      elim (Bool-cases (device_id == "")) [
        | inl e ↦
            let (same, end) = save_then env _ (answered, token, told) _ (rw e at h) in
            let drawn = sym (ap (λ x. x.1) same) in
            rw (e, end)
              (
                drawn,
                refl,
                get-put_self _ _ _ ∙ ap (stored now account device_id hostname w) (sym drawn),
              )
        | inr e ↦
            let (same, end) = save_then env _ (answered, token, told) _ (rw e at h) in
            let drawn = sym (ap (λ x. x.1) same) in
            rw (e, end)
              (
                drawn,
                refl,
                get-put_self _ _ _ ∙ ap (stored now account device_id hostname w) (sym drawn),
              )
      ]

  accepted :
      (now later : ℕ) (account answered : Account)
      (device_id hostname storage_root token told : String) (w : World)
      → ((n : ℕ) → (env.random_id n == "") ≡ false)
      → ((bytes : List ℕ) → (env.sha256_hex bytes == "") ≡ false)
      → account.disabled ≡ false
      → get account.id w.state.accounts ≡ some account
      → (issue_token env now account device_id hostname storage_root w).0
        ≡ ok (answered, token, told)
      → (found : Account) × ((authenticate_sync_token env later token
            (issue_token env now account device_id hostname storage_root w).1).0
          ≡ ok (some found))
  unfolding authenticate_sync_token authenticate_found try_save
  accepted now later account answered device_id hostname storage_root token told w ids hashes on
        there h =
      let (drawn, accounts, recorded) =
        issued now account answered device_id hostname storage_root token told w h in
      let (found, it) = find_token-found token _ _ _ _ account recorded (
        new_token-accepted (env.random_id (w.issued + 1 + 1)) device_id hostname token now
          (issue_token env now account device_id hostname storage_root w).1.state.accounts account
          (rw drawn (append-ne_empty _ (env.random_id (w.issued + 1)) (ids w.issued))) (hashes _) on
          (rw accounts there)) in
      (found.2, rw it refl)

  found_accepted :
      (now later : ℕ) (identifier password device_id hostname storage_root : String)
      (o : Option Account) (answered : Account) (token told : String) (w : World)
      → ((n : ℕ) → (env.random_id n == "") ≡ false)
      → ((bytes : List ℕ) → (env.sha256_hex bytes == "") ≡ false)
      → Keyed w.state.accounts
      → o ≡ find_login env identifier password w.state.accounts
      → (issue_found env now device_id hostname storage_root o w).0 ≡ ok (answered, token, told)
      → (found : Account) × ((authenticate_sync_token env later token
            (issue_found env now device_id hostname storage_root o w).1).0
          ≡ ok (some found))
  unfolding issue_found
  found_accepted now later identifier password device_id hostname storage_root none answered token
        told w ids hashes k e h =
      cc
  found_accepted now later identifier password device_id hostname storage_root (some account)
        answered token told w ids hashes k e h =
      let guarded = find_login_guarded env identifier password w.state.accounts account (sym e) in
      accepted now later account answered device_id hostname storage_root token told w ids hashes
        guarded.0 (find_login-get identifier password w.state.accounts account k (sym e)) h

-- The token that IssueClientToken answers with lets its holder in right after, at whatever time:
-- AuthenticateSyncToken finds an account for it. Ids and hashes are taken to be no empty texts, and
-- each account to stand under its own id.
pub issued_token_lets_in :
    (env : Env) (now later : ℕ) (identifier password device_id hostname storage_root : String)
    (answered : Account) (token told : String) (w : World)
    → ((n : ℕ) → (env.random_id n == "") ≡ false)
    → ((bytes : List ℕ) → (env.sha256_hex bytes == "") ≡ false)
    → Keyed w.state.accounts
    → (issue_client_token env now identifier password device_id hostname storage_root w).0
      ≡ ok (answered, token, told)
    → (found : Account) × ((authenticate_sync_token env later token
          (issue_client_token env now identifier password device_id hostname storage_root w).1).0
        ≡ ok (some found))
unfolding issue_client_token
issued_token_lets_in env now later identifier password device_id hostname storage_root answered
      token told w ids hashes k h =
    elim (Bool-cases (
      not (trim_space storage_root == "")
      && not (is_client_absolute_path (trim_space storage_root)))) [
        | inl e ↦
            let refused : ◌≡◌ {A = Result (Account × String × String)}
                (err storage_root_not_absolute) (ok (answered, token, told)) =
              rw e at h in
            cc
        | inr e ↦ rw e (
            found_accepted env now later (env.to_lower (trim_space identifier)) password
              (trim_space device_id) (trim_space hostname)
              (clean_client_path (trim_space storage_root)) _ answered token told w ids hashes k
              refl (rw e at h))
      ]
