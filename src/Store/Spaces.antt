-- ===== src/Store/Spaces.antt =====
-- internal/server/store.go: CreateSpace and SetSpaceActive.
mod Tests
use xcloud.Prelude.{
  ℕ, zero, suc, ◌+◌, String, Bool, true, false, not, ◌||◌, Option, none, some, ◌==◌, if◌then◌else◌,
  get, put, trim_space, contains_char, Dict, length,
}
use xcloud.Model.{SyncSpace, ServerState}
use xcloud.Result.{Result, ok, err, Error, space_name_required, space_not_found}
use xcloud.Fileutil.{clean_rel}
use xcloud.Store.World.{
  Env, World, Exec, pure, raise, resume, refuse_if, modify, new_id, save, ◌>>=◌, ◌>>◌,
}
use xcloud.Store.Keys.{space_key}

abbrev present : Option SyncSpace → Bool
present none = false
present (some space) = true

-- s.state.Spaces[spaceKey(accountID, id)] != nil
unfoldable pub is_taken : String → String → ServerState → Bool
is_taken account_id id s = present (get (space_key account_id id) s.spaces)

abbrev pub put_space : String → SyncSpace → ServerState → ServerState
put_space account_id space s = record s {
  spaces = put (space_key account_id space.id) space s.spaces;
}

module _ (env : Env) (now : ℕ) (account_id : String) where
  abbrev pub drawn_unless : Result String → Exec String
  drawn_unless (err e) = new_id env
  drawn_unless (ok id) = if contains_char 47 id then new_id env else pure id

  -- The loop that draws ids until one is not taken, for as many rounds as the fuel says.
  unfoldable pub free_id : ℕ → String → Exec (Option String)
  free_id zero id w = (ok none, w)
  free_id (suc n) id w =
      let later = (new_id env >>= free_id n) w in
      if is_taken account_id id w.state then later else (ok (some id), w)

  abbrev pub space_of : String → String → String → SyncSpace
  space_of id name description = record {
    id = id;
    account_id = account_id;
    name = name;
    description = description;
    active = true;
    created_at = now;
    updated_at = now;
  }

  unfoldable pub write_space : String → String → Option String → Exec (Option SyncSpace)
  write_space name description none = pure none
  write_space name description (some id) = do
    modify (put_space account_id (space_of id name description))
    save env
    pure (some (space_of id name description))

  -- CreateSpace; `none` where the fuel is used up.
  unfoldable pub create_space : ℕ → String → String → Exec (Option SyncSpace)
  create_space fuel name description = do
    refuse_if (trim_space name == "") space_name_required
    first ← drawn_unless (clean_rel (trim_space name))
    id ← free_id fuel first
    write_space (trim_space name) (trim_space description) id

  unfoldable pub activate : String → Bool → Option SyncSpace → Exec (Unit {0})
  activate space_id active none = raise space_not_found
  activate space_id active (some space) = do
    modify (λ s. record s {
      spaces =
          put (space_key account_id space_id) (record space { active = active; updated_at = now })
            s.spaces;
    })
    save env

  -- SetSpaceActive
  unfoldable pub set_space_active : String → Bool → Exec (Unit {0})
  set_space_active space_id active w =
      activate space_id active (get (space_key account_id space_id) w.state.spaces) w
