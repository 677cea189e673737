-- ===== src/Store/Accounts/Password.antt =====
-- internal/server/store.go: what ChangePassword asks for and what it changes.
use text.Mathlib.TextPositions.{eq_refl}
use xcloud.Prelude.{
  ℕ, String, ◌≡◌, refl, sym, inl, inr, true, false, List, Option, none, some, ◌==◌, ltb, length,
  utf8, cons-ne_empty, get, get-put_self, Bool-cases,
}
use xcloud.Model.{Account}
use xcloud.Result.{Result, ok, err, wrong_password, new_password_short}
use xcloud.Store.World.{Env, World}
use xcloud.Store.World.Keeps.{state-save}
use xcloud.Store.Accounts.{
  verify_secret, hash_secret, get_account, write_account, change_verified, change_password,
}
use xcloud.Store.Accounts.Guarded.{enabled_only}

-- The account, which was enabled and had the current password, has the new one and nothing else new.
pub record IsChanged (env : Env) (now : ℕ) (account_id current_password new_password : String)
    (before after : World) : Type 0 where
  pub account : Account
  pub found : get account_id before.state.accounts ≡ some account
  pub on : account.disabled ≡ false
  pub verified : verify_secret env current_password account.password_hash ≡ true
  pub stored :
      get account_id after.state.accounts
      ≡ some (record account { password_hash = hash_secret env new_password; updated_at = now })
  pub verifies : verify_secret env new_password (hash_secret env new_password) ≡ true

long_named : (s : String) → ltb (length (utf8 s)) 8 ≡ false → (s == "") ≡ false
unfolding utf8
long_named String.[] h = cc
long_named (String.◌∷◌ c s) h = cons-ne_empty c s

own_hash :
    (env : Env) (s : String)
    → ((bytes : List ℕ) → (env.sha256_hex bytes == "") ≡ false)
    → (s == "") ≡ false
    → verify_secret env s (hash_secret env s) ≡ true
unfolding verify_secret
own_hash env s hashes h = rw (h, hashes (utf8 s), eq_refl (hash_secret env s)) refl

module _ (env : Env) (now : ℕ) (account_id current_password new_password : String) where
  verified-IsChanged :
      (o : Option Account) (w : World)
      → o ≡ get_account account_id w.state
      → verify_secret env new_password (hash_secret env new_password) ≡ true
      → (change_verified env now account_id current_password new_password o w).0 ≡ ok tt
      → IsChanged env now account_id current_password new_password w
          (change_verified env now account_id current_password new_password o w).1
  unfolding change_verified get_account write_account
  verified-IsChanged none w e v h = cc
  verified-IsChanged (some account) w e v h =
      let (found, on) = enabled_only (get account_id w.state.accounts) account (sym e) in
      elim (Bool-cases (verify_secret env current_password account.password_hash)) [
        | inr f ↦
            let refused : ◌≡◌ {A = Result (Unit {0})} (err wrong_password) (ok tt) = rw f at h in cc
        | inl f ↦ rw f (record {
          account = account;
          found = found;
          on = on;
          verified = f;
          stored = rw (state-save env _) (get-put_self _ _ _);
          verifies = v;
        })
      ]

-- A change of password that succeeds was made with the current password of an enabled account; from
-- then on the account has the hash of the new password, which verifies, and nothing else of it but
-- the time of the update has changed. Hashes are taken to be no empty texts.
pub change_password-IsChanged :
    (env : Env) (now : ℕ) (account_id current_password new_password : String) (w : World)
    → ((bytes : List ℕ) → (env.sha256_hex bytes == "") ≡ false)
    → (change_password env now account_id current_password new_password w).0 ≡ ok tt
    → IsChanged env now account_id current_password new_password w
        (change_password env now account_id current_password new_password w).1
unfolding change_password
change_password-IsChanged env now account_id current_password new_password w hashes h =
    elim (Bool-cases (ltb (length (utf8 new_password)) 8)) [
      | inl e ↦
          let refused : ◌≡◌ {A = Result (Unit {0})} (err new_password_short) (ok tt) = rw e at h in
          cc
      | inr e ↦ rw e (
          verified-IsChanged env now account_id current_password new_password _ w refl
            (own_hash env new_password hashes (long_named new_password e)) (rw e at h))
    ]
