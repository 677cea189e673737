-- ===== src/Store/Accounts/Tests.antt =====
-- Accounts, passwords and tokens on a store with one account.
use xcloud.Prelude.{
  ℕ, zero, suc, String, ◌≡◌, refl, true, false, List, [], ◌∷◌, Option, none, some, get, trim_space,
  ◌<>◌, ◌==◌, utf8, all_chars, contains_char, cons-ne_empty,
}
use xcloud.Model.{Account, ServerState, default_sync_settings}
use xcloud.Result.{ok, err, password_short, account_exists}
use xcloud.Fileutil.{clean}
use xcloud.Store.World.{Exec, save, save_control}
use xcloud.Store.Keys.{space_key, device_key}
use xcloud.Store.ClientPath.{
  is_client_absolute_path, clean_client_path, squeeze, squeeze_loop, char_count, replace_pairs,
  has_pair,
}
use xcloud.Store.Devices.{seen_device}
use xcloud.Store.Accounts.{
  verify_secret, new_token, get_account, write_account, change_verified, change_password,
}
use xcloud.Store.Accounts.Password.{IsChanged, change_password-IsChanged}
use xcloud.Store.Accounts.Login.{
  find_login, is_named, token_account, find_token, find_sync_token, authenticate_found,
  authenticate_sync_token, issue_token, issue_found, issue_client_token,
}
use xcloud.Store.Accounts.Create.{
  valid_account_name, clash, write_new_account, create_unless, create_trimmed, create_account,
}
use xcloud.Store.Accounts.Guarded.{LetsIn, authenticate_sync_token_guarded, find_login_guarded}
use xcloud.Store.Accounts.Unique.{Apart, Passes, create_account-Apart}
use xcloud.Store.Accounts.Issued.{Keyed, issued_token_lets_in}
use xcloud.Store.Samples.{sample_env, empty_state, world_of, ones}

abbrev ann : Account
ann = record {
  id = "i";
  username = "ann";
  display_name = "Ann";
  email = "a@b";
  password_hash = ones;
  sync_token_hash = ones;
  is_admin = false;
  disabled = false;
  sync_enabled = false;
  sync_settings = default_sync_settings;
  created_at = 1;
  updated_at = 1;
}

abbrev ann_state : ServerState
ann_state = record empty_state { accounts = ("i", ann) ∷ [] }

create_run : String → String → Exec (Account × String)
unfolding create_account create_trimmed create_unless write_new_account clash valid_account_name
    new_token space_key save save_control trim_space ◌<>◌ utf8 all_chars contains_char
create_run username password = create_account sample_env username "a@b" "" password false 7

too_short : (create_run "ann" "1234567" (world_of empty_state)).0 ≡ err password_short
unfolding create_run
too_short = refl

known : (create_run "ann" "12345678" (world_of ann_state)).0 ≡ err account_exists
unfolding create_run
known = refl

named_after_user :
    (account : Account) × ((create_run " ann" "12345678" (world_of empty_state)).0
      ≡ ok (account, "iii"))
    × (account.display_name ≡ "ann")
unfolding create_run
named_after_user = (_, refl, refl)

token_run : String → Exec (Option Account)
unfolding authenticate_sync_token authenticate_found find_token find_sync_token token_account
    verify_secret get utf8 save save_control
token_run token = authenticate_sync_token sample_env 7 token

by_own_token :
    (authenticate_sync_token sample_env 7 "secret" (world_of ann_state)).0 ≡ ok (some ann)
unfolding token_run
by_own_token = refl

authenticate_sync_token_guarded_example :
    (ann.disabled ≡ false) × LetsIn sample_env "secret" ann_state ann
authenticate_sync_token_guarded_example =
    authenticate_sync_token_guarded sample_env 7 "secret" ann (world_of ann_state) by_own_token

by_email : find_login sample_env "a@b" "password" ann_state.accounts ≡ some ann
unfolding find_login verify_secret utf8
by_email = refl

find_login_guarded_example :
    (ann.disabled ≡ false)
    × (is_named sample_env "a@b" ann ≡ true)
    × (verify_secret sample_env "password" ann.password_hash ≡ true)
find_login_guarded_example =
    find_login_guarded sample_env "a@b" "password" ann_state.accounts ann by_email

ids_named : (n : ℕ) → (sample_env.random_id n == "") ≡ false
ids_named zero = refl
ids_named (suc n) = cons-ne_empty _ _

hashes_named : (bytes : List ℕ) → (sample_env.sha256_hex bytes == "") ≡ false
hashes_named [] = refl
hashes_named (b ∷ bs) = refl

ann-Keyed : Keyed ann_state.accounts
unfolding get
ann-Keyed = (refl, refl, tt)

issue_run : String → Exec (Account × String × String)
unfolding issue_client_token issue_found issue_token new_token find_login verify_secret seen_device
    device_key is_client_absolute_path clean_client_path clean squeeze squeeze_loop char_count
    replace_pairs has_pair get utf8 save save_control trim_space ◌<>◌
issue_run device_id = issue_client_token sample_env 7 "ann " "password" device_id "h" "/data"

issued :
    (account : Account) × ((issue_client_token sample_env 7 "ann " "password" "d" "h" "/data"
        (world_of ann_state)).0
      ≡ ok (account, "iii", "/data"))
    × (account.password_hash ≡ "")
unfolding issue_run
issued = (_, refl, refl)

issued_token_lets_in_example :
    (found : Account) × ((authenticate_sync_token sample_env 8 "iii"
        (issue_client_token sample_env 7 "ann " "password" "d" "h" "/data"
          (world_of ann_state)).1).0
      ≡ ok (some found))
issued_token_lets_in_example =
    issued_token_lets_in sample_env 7 8 "ann " "password" "d" "h" "/data" issued.0 "iii" "/data"
      (world_of ann_state) ids_named hashes_named ann-Keyed issued.1

bob_made :
    (account : Account) × ((create_account sample_env "bob" "b@b" "" "12345678" false 7
        (world_of ann_state)).0
      ≡ ok (account, "iii"))
    × (account.display_name ≡ "bob")
unfolding create_run
bob_made = (_, refl, refl)

bob_fresh : get "iii" ann_state.accounts ≡ none
unfolding get
bob_fresh = refl

create_account-Apart_example :
    Apart sample_env
      (create_account sample_env "bob" "b@b" "" "12345678" false 7
        (world_of ann_state)).1.state.accounts
    × Passes (trim_space "bob") (sample_env.to_lower (trim_space "b@b")) "12345678"
create_account-Apart_example =
    create_account-Apart sample_env "bob" "b@b" "" "12345678" false 7 bob_made.0 "iii"
      (world_of ann_state) bob_fresh (tt, tt) bob_made.1

changed : (change_password sample_env 9 "i" "password" "password2" (world_of ann_state)).0 ≡ ok tt
unfolding change_password change_verified write_account get_account verify_secret utf8 get save
    save_control
changed = refl

change_password-IsChanged_example :
    IsChanged sample_env 9 "i" "password" "password2"
      (world_of ann_state)
      (change_password sample_env 9 "i" "password" "password2" (world_of ann_state)).1
change_password-IsChanged_example =
    change_password-IsChanged sample_env 9 "i" "password" "password2" (world_of ann_state)
      hashes_named changed
