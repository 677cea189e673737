-- ===== src/Store/Accounts/Create.antt =====
-- internal/server/store.go: CreateAccount.
use xcloud.Prelude.{
  ℕ, String, Bool, true, false, not, ◌&&◌, ◌||◌, [], ◌∷◌, Option, none, some, ◌==◌, if◌then◌else◌,
  leb, ltb, eqb, put, Dict, trim_space, all_chars, contains_char, utf8, length,
}
use xcloud.Model.{Account, SyncSpace, ServerState, default_sync_settings}
use xcloud.Result.{
  Error, username_required, username_invalid, email_invalid, password_required, password_short,
  account_exists, email_registered,
}
use xcloud.Store.World.{
  Env, Exec, pure, raise, refuse_if, get_state, modify, new_id, save, ◌>>=◌, ◌>>◌,
}
use xcloud.Store.Keys.{space_key}
use xcloud.Store.Accounts.{hash_secret, new_token, put_account}
use xcloud.Store.Accounts.Login.{without_secrets}

abbrev is_name_char : ℕ → Bool
is_name_char r =
    (leb 97 r && leb r 122)
    || (leb 65 r && leb r 90)
    || (leb 48 r && leb r 57)
    || eqb r 46
    || eqb r 95
    || eqb r 45

-- validAccountName; len counts bytes.
unfoldable pub valid_account_name : String → Bool
unfolding all_chars
valid_account_name v =
    leb 3 (length (utf8 v)) && leb (length (utf8 v)) 64 && all_chars is_name_char v

abbrev default_space : String → ℕ → SyncSpace
default_space account_id now = record {
  id = "default";
  account_id = account_id;
  name = "default";
  description = "";
  active = true;
  created_at = now;
  updated_at = now;
}

abbrev or_error : Option Error → Option Error → Option Error
or_error (some e) later = some e
or_error none later = later

module _ (env : Env) where
  abbrev pub clashes_with : String → String → Account → Option Error
  clashes_with username email account =
      if env.equal_fold account.username username
      then some account_exists
      else if not (email == "") && env.equal_fold account.email email
      then some email_registered
      else none

  -- The loop of CreateAccount over the accounts.
  unfoldable pub clash : String → String → Dict Account → Option Error
  clash username email [] = none
  clash username email ((id, account) ∷ accounts) =
      or_error (clashes_with username email account) (clash username email accounts)

  abbrev pub account_of : String → String → String → String → String → String → Bool → ℕ → Account
  account_of id username email display_name password token admin now = record {
    id = id;
    username = username;
    display_name = display_name;
    email = email;
    password_hash = hash_secret env password;
    sync_token_hash = hash_secret env token;
    is_admin = admin;
    disabled = false;
    sync_enabled = false;
    sync_settings = default_sync_settings;
    created_at = now;
    updated_at = now;
  }

  -- The account, and its space `default`.
  abbrev pub store_account : Account → ℕ → ServerState → ServerState
  store_account account now s =
      let t = put_account account.id account s in
      record t {
        spaces = put (space_key account.id "default") (default_space account.id now) t.spaces;
      }

  -- CreateAccount behind the checks.
  unfoldable pub write_new_account :
      String → String → String → String → Bool → ℕ → Exec (Account × String)
  write_new_account username email display_name password admin now = do
    token ← new_token env
    id ← new_id env
    let account = account_of id username email display_name password token admin now
    modify (store_account account now)
    save env
    pure (without_secrets account, token)

  unfoldable pub create_unless :
      Option Error → String → String → String → String → Bool → ℕ → Exec (Account × String)
  create_unless (some e) username email display_name password admin now = raise e
  create_unless none username email display_name password admin now =
      write_new_account username email display_name password admin now

  abbrev pub name_or : String → String → String
  name_or username display_name = if display_name == "" then username else display_name

  -- The checks of the arguments, trimmed by then.
  unfoldable pub create_trimmed :
      String → String → String → String → Bool → ℕ → Exec (Account × String)
  create_trimmed username email display_name password admin now = do
    refuse_if (username == "") username_required
    refuse_if (not (valid_account_name username)) username_invalid
    refuse_if (not (email == "") && not (contains_char 64 email)) email_invalid
    refuse_if (password == "") password_required
    refuse_if (ltb (length (utf8 password)) 8) password_short
    s ← get_state
    create_unless (clash username email s.accounts) username email (name_or username display_name)
        password admin now

  -- CreateAccount
  unfoldable pub create_account :
      String → String → String → String → Bool → ℕ → Exec (Account × String)
  create_account username email display_name password admin now =
      create_trimmed (trim_space username) (env.to_lower (trim_space email))
        (trim_space display_name) password admin now
