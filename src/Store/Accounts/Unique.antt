-- ===== src/Store/Accounts/Unique.antt =====
-- internal/server/store.go: CreateAccount gives no name and no email twice.
use xcloud.Prelude.{
  ℕ, ◌+◌, String, ◌≡◌, refl, sym, ap, inl, inr, Bool, true, false, not, ◌&&◌, [], ◌∷◌, ◌++◌, Option,
  none, some, arith, ◌==◌, ltb, Dict, All, Bool-cases, Option-cases, get, put, if◌then◌else◌,
  contains_char, trim_space, utf8, length, ◌<>◌,
}
use xcloud.Model.{Account}
use xcloud.Result.{ok, Error, account_exists, email_registered}
use xcloud.Store.World.{Env, World}
use xcloud.Store.World.Keeps.{save_then}
use xcloud.Store.Accounts.{new_token}
use xcloud.Store.Accounts.Create.{
  account_of, valid_account_name, clashes_with, clash, name_or, write_new_account, create_unless,
  create_trimmed, create_account,
}

-- Two accounts differ in their names, and in their emails where the later one has one, by
-- strings.EqualFold.
abbrev pub Differ : Env → Account → Account → Type 0
Differ env a b =
    (env.equal_fold a.username b.username ≡ false)
    × ((b.email == "") ≡ false → env.equal_fold a.email b.email ≡ false)

-- Every two accounts differ so, the earlier one first.
abbrev pub Apart : Env → Dict Account → Type 0
Apart env [] = Unit
Apart env ((key, a) ∷ accounts) = All (λ (j, b). Differ env a b) accounts × Apart env accounts

put-new :
    (key : String) (a : Account) (accounts : Dict Account)
    → get key accounts ≡ none
    → put key a accounts ≡ accounts ++ (key, a) ∷ []
unfolding get put
put-new key a [] h = refl
put-new key a ((j, b) ∷ accounts) h = elim (Bool-cases (j == key)) [
  | inl e ↦ let taken : ◌≡◌ {A = Option Account} (some b) none = rw e at h in cc
  | inr e ↦ rw e (ap (λ rest. (j, b) ∷ rest) (put-new key a accounts (rw e at h)))
]

All-snoc :
    (P : String × Account → Type 0) (accounts : Dict Account) (x : String × Account)
    → All P accounts
    → P x
    → All P (accounts ++ x ∷ [])
All-snoc P [] x h p = (p, tt)
All-snoc P (y ∷ accounts) x h p = (h.0, All-snoc P accounts x h.1 p)

Apart-snoc :
    (env : Env) (accounts : Dict Account) (key : String) (b : Account)
    → Apart env accounts
    → All (λ (j, a). Differ env a b) accounts
    → Apart env (accounts ++ (key, b) ∷ [])
Apart-snoc env [] key b h k = (tt, tt)
Apart-snoc env ((j, a) ∷ accounts) key b h k = (
  All-snoc (λ (i, c). Differ env a c) accounts (key, b) h.0 k.0,
  Apart-snoc env accounts key b h.1 k.1,
)

no_clash :
    (env : Env) (a b : Account) → clashes_with env b.username b.email a ≡ none → Differ env a b
no_clash env a b h =
    by_tests (env.equal_fold a.username b.username) (b.email == "") (env.equal_fold a.email b.email)
      h
  where
    by_tests :
        (same_name no_email same_email : Bool)
        → (if same_name
            then some account_exists
            else if not no_email && same_email
            then some email_registered
            else none)
          ≡ none
        → (same_name ≡ false) × (no_email ≡ false → same_email ≡ false)
    by_tests true no_email same_email k = cc
    by_tests false true same_email k = (refl, λ e. cc)
    by_tests false false true k = cc
    by_tests false false false k = (refl, λ e. refl)

clash-All :
    (env : Env) (accounts : Dict Account) (b : Account)
    → clash env b.username b.email accounts ≡ none
    → All (λ (j, a). Differ env a b) accounts
unfolding clash
clash-All env [] b h = tt
clash-All env ((j, a) ∷ accounts) b h =
    elim (Option-cases (clashes_with env b.username b.email a)) [
      | inl e ↦ (no_clash env a b e, clash-All env accounts b (rw e at h))
      | inr (error, e) ↦ let refused : ◌≡◌ {A = Option Error} (some error) none = rw e at h in cc
    ]

-- The tests of CreateAccount.
pub record Passes (username email password : String) : Type 0 where
  pub named : (username == "") ≡ false
  pub well_named : valid_account_name username ≡ true
  pub reachable : (not (email == "") && not (contains_char 64 email)) ≡ false
  pub secret : (password == "") ≡ false
  pub long : ltb (length (utf8 password)) 8 ≡ false

module _ (env : Env) (username email display_name password : String) (admin : Bool) (now : ℕ) where
  abbrev made : String → World → Account
  made name w =
      account_of env (env.random_id (w.issued + 1 + 1)) username email name password
        (env.random_id w.issued <> env.random_id (w.issued + 1)) admin now

  -- The state behind the new account: an account under a new id, at the end.
  written-Apart :
      (name : String) (answered : Account) (token : String) (w : World)
      → get (env.random_id (w.issued + 1 + 1)) w.state.accounts ≡ none
      → clash env username email w.state.accounts ≡ none
      → Apart env w.state.accounts
      → (write_new_account env username email name password admin now w).0 ≡ ok (answered, token)
      → Apart env (write_new_account env username email name password admin now w).1.state.accounts
  unfolding write_new_account new_token
  written-Apart name answered token w fresh clear apart h =
      let (same, end) = save_then env _ (answered, token) _ h in
      rw (end, put-new (env.random_id (w.issued + 1 + 1)) (made name w) w.state.accounts fresh)
        (Apart-snoc env w.state.accounts (env.random_id (w.issued + 1 + 1)) (made name w) apart
          (clash-All env w.state.accounts (made name w) clear))

  unless-Apart :
      (o : Option Error) (name : String) (answered : Account) (token : String) (w : World)
      → o ≡ clash env username email w.state.accounts
      → get (env.random_id (w.issued + 1 + 1)) w.state.accounts ≡ none
      → Apart env w.state.accounts
      → (create_unless env o username email name password admin now w).0 ≡ ok (answered, token)
      → Apart env (create_unless env o username email name password admin now w).1.state.accounts
  unfolding create_unless
  unless-Apart (some e) name answered token w same fresh apart h = cc
  unless-Apart none name answered token w same fresh apart h =
      written-Apart name answered token w fresh (sym same) apart h

  Passes-of_ok :
      (answered : Account) (token : String) (w : World)
      → (create_trimmed env username email display_name password admin now w).0
        ≡ ok (answered, token)
      → Passes username email password
  unfolding create_trimmed
  Passes-of_ok answered token w h = ground arith

  trimmed-Apart :
      (answered : Account) (token : String) (w : World)
      → get (env.random_id (w.issued + 1 + 1)) w.state.accounts ≡ none
      → Apart env w.state.accounts
      → (create_trimmed env username email display_name password admin now w).0
        ≡ ok (answered, token)
      → Apart env
          (create_trimmed env username email display_name password admin now w).1.state.accounts
  unfolding create_trimmed
  trimmed-Apart answered token w fresh apart h =
      let p = Passes-of_ok answered token w h in
      rw (p.named, p.well_named, p.reachable, p.secret, p.long)
        (unless-Apart _ (name_or env username display_name) answered token w refl fresh apart
          (rw (p.named, p.well_named, p.reachable, p.secret, p.long) at h))

-- Names and emails stay unique: where every two accounts differ in name and in email, so do they
-- after a CreateAccount that succeeds, and the new account's name and password pass the tests. The
-- id that is drawn is taken to be new.
pub create_account-Apart :
    (env : Env) (username email display_name password : String) (admin : Bool) (now : ℕ)
    (answered : Account) (token : String) (w : World)
    → get (env.random_id (w.issued + 1 + 1)) w.state.accounts ≡ none
    → Apart env w.state.accounts
    → (create_account env username email display_name password admin now w).0 ≡ ok (answered, token)
    → Apart env
        (create_account env username email display_name password admin now w).1.state.accounts
      × Passes (trim_space username) (env.to_lower (trim_space email)) password
unfolding create_account
create_account-Apart env username email display_name password admin now answered token w fresh apart
      h =
    (
      trimmed-Apart env (trim_space username) (env.to_lower (trim_space email))
          (trim_space display_name) password admin now answered token w fresh apart h,
      Passes-of_ok env (trim_space username) (env.to_lower (trim_space email))
          (trim_space display_name) password admin now answered token w h,
    )
