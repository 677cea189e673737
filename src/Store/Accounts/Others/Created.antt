-- ===== src/Store/Accounts/Others/Created.antt =====
-- internal/server/store.go: what CreateAccount leaves of the other accounts.
use xcloud.Prelude.{
  ℕ, String, ◌≡◌, refl, Bool, false, not, ◌&&◌, Option, none, some, ◌==◌, ltb, length, utf8,
  trim_space, contains_char,
}
use xcloud.Model.{Account}
use xcloud.Result.{
  Error, username_required, username_invalid, email_invalid, password_required, password_short,
}
use xcloud.Store.World.{Env, pure, modify, save, ◌>>◌}
use xcloud.Store.World.Keeps.{
  Keeps, Keeps-bind, Keeps-pure, Keeps-raise, Keeps-modify, Keeps-save, Keeps-refuse_if,
  Keeps-get_state,
}
use xcloud.Store.Accounts.{new_token}
use xcloud.Store.Accounts.Create.{
  account_of, valid_account_name, clash, store_account, write_new_account, create_unless, name_or,
  create_trimmed, create_account,
}
use xcloud.Store.Accounts.Others.{Holds, Holds-put_other, Holds-same}

pub Holds-token :
    (b : String) (held : Option Account) (env : Env) → Keeps (Holds b held) (new_token env)
Holds-token b held env = record { step = unfold new_token in λ w. Holds-same b held w.state _ refl }

-- No id that is drawn is `b`.
module _ (b : String) (held : Option Account) (env : Env)
    (fresh : (n : ℕ) → (env.random_id n == b) ≡ false) (now : ℕ) where
  Holds-stored :
      (account : Account) (answer : Account × String)
      → (account.id == b) ≡ false
      → Keeps {A = Account × String}
          (Holds b held)
          (modify (store_account env account now) >> (save env >> pure answer))
  Holds-stored account answer other =
      Keeps-bind _ _
        (Keeps-modify (store_account env account now)
          λ s h. Holds-same b held _ _ refl (Holds-put_other b held account.id account s other h))
        λ _. Keeps-bind _ _ (Keeps-save env) λ _. Keeps-pure answer

  Holds-write_new_account :
      (username email display_name password : String) (admin : Bool)
      → Keeps (Holds b held) (write_new_account env username email display_name password admin now)
  unfolding write_new_account
  Holds-write_new_account username email display_name password admin =
      Keeps-bind _ _ (Holds-token b held env) λ token. record {
        step = λ w h.
            (Holds-stored
                (account_of env (env.random_id w.issued) username email display_name password token
                  admin now)
                _ (fresh w.issued)).step
              _ (Holds-same b held w.state _ refl h);
      }

  Holds-create_unless :
      (o : Option Error) (username email display_name password : String) (admin : Bool)
      → Keeps (Holds b held) (create_unless env o username email display_name password admin now)
  unfolding create_unless
  Holds-create_unless none username email display_name password admin =
      Holds-write_new_account username email display_name password admin
  Holds-create_unless (some e) username email display_name password admin = Keeps-raise e

  Holds-create_trimmed :
      (username email display_name password : String) (admin : Bool)
      → Keeps (Holds b held) (create_trimmed env username email display_name password admin now)
  unfolding create_trimmed
  Holds-create_trimmed username email display_name password admin =
      Keeps-bind _ _ (Keeps-refuse_if (username == "") username_required) λ _.
        Keeps-bind _ _ (Keeps-refuse_if (not (valid_account_name username)) username_invalid) λ _.
          Keeps-bind _ _
            (Keeps-refuse_if (not (email == "") && not (contains_char 64 email)) email_invalid)
            λ _. Keeps-bind _ _ (Keeps-refuse_if (password == "") password_required) λ _.
              Keeps-bind _ _ (Keeps-refuse_if (ltb (length (utf8 password)) 8) password_short) λ _.
                Keeps-bind _ _ Keeps-get_state λ s.
                  Holds-create_unless (clash env username email s.accounts) username email
                    (name_or env username display_name) password admin

  pub Holds-create_account :
      (username email display_name password : String) (admin : Bool)
      → Keeps (Holds b held) (create_account env username email display_name password admin now)
  unfolding create_account
  Holds-create_account username email display_name password admin =
      Holds-create_trimmed (trim_space username) (env.to_lower (trim_space email))
        (trim_space display_name) password admin
