-- ===== src/Store/Lists.antt =====
-- internal/server/store.go: what the store lists of an account, in order. Go leaves the order of
-- entries that compare as equal open.
pub mod Status
use xcloud.Prelude.{
  ℕ, ◌+◌, String, Bool, true, false, not, ◌&&◌, ◌||◌, List, [], ◌∷◌, Option, none, some, ◌==◌,
  if◌then◌else◌, ltb, eqb, map, keep, utf8, Dict,
}
use xcloud.Model.{Account, ClientDevice, SyncSpace, FileEntry, FileVersion, ServerState}
use xcloud.Result.{ok}
use xcloud.Store.World.{Env, Exec, pure, resume, get_state, modify, ◌>>=◌, ◌>>◌}
use xcloud.Store.Accounts.Login.{without_secrets}
use xcloud.Store.Trash.{prune_trash, prunes, try_save}

-- a < b on texts, which Go compares byte by byte
unfoldable pub less_bytes : List ℕ → List ℕ → Bool
less_bytes [] [] = false
less_bytes [] (b ∷ bs) = true
less_bytes (a ∷ later) [] = false
less_bytes (a ∷ later) (b ∷ bs) = let rest = less_bytes later bs in ltb a b || eqb a b && rest

unfoldable pub less : String → String → Bool
unfolding less_bytes utf8
less s t = less_bytes (utf8 s) (utf8 t)

module _ {ℓ} {A : Type ℓ} (before : A → A → Bool) where
  unfoldable insert_by : A → List A → List A
  insert_by x [] = x ∷ []
  insert_by x (y ∷ ys) = let later = y ∷ insert_by x ys in if before y x then later else x ∷ y ∷ ys

  -- sort.Slice
  unfoldable pub sort_by : List A → List A
  unfolding insert_by
  sort_by [] = []
  sort_by (x ∷ xs) = insert_by x (sort_by xs)

abbrev pub values {ℓ} : {V : Type ℓ} → Dict V → List V
values m = map (λ (k, v). v) m

-- ListAccounts
unfoldable pub list_accounts : ServerState → List Account
unfolding less sort_by keep
list_accounts s =
    sort_by (λ a b. less a.username b.username) (map without_secrets (values s.accounts))

abbrev seen_before : ClientDevice → ClientDevice → Bool
seen_before a b =
    if not (eqb a.last_seen_at b.last_seen_at)
    then ltb b.last_seen_at a.last_seen_at
    else less a.device_id b.device_id

-- ListClientDevices
unfoldable pub list_client_devices : String → ServerState → List ClientDevice
unfolding less sort_by keep
list_client_devices account_id s =
    sort_by seen_before (keep (λ d. d.account_id == account_id) (values s.client_devices))

-- ListFiles
unfoldable pub list_files : String → String → ServerState → List FileEntry
unfolding less sort_by keep
list_files account_id space_id s =
    sort_by (λ a b. less a.path b.path)
      (keep (λ e. e.account_id == account_id && e.space_id == space_id) (values s.files))

-- SpaceSummary; its number of folders is never set.
pub record SpaceSummary : Type 0 where
  pub space : SyncSpace
  pub file_count : ℕ
  pub deleted : ℕ
  pub trash : ℕ

abbrev is_trash : Option FileVersion → Bool
is_trash none = false
is_trash (some version) = ltb 0 version.deleted_at

abbrev counted : FileEntry → SpaceSummary → SpaceSummary
counted entry summary =
    if not entry.deleted
    then record summary { file_count = summary.file_count + 1 }
    else if is_trash entry.current
    then record summary { deleted = summary.deleted + 1; trash = summary.trash + 1 }
    else record summary { deleted = summary.deleted + 1 }

-- The loop of ListSpaces over the files.
unfoldable pub count_files : String → SyncSpace → List FileEntry → SpaceSummary
count_files account_id space [] = record { space = space; file_count = 0; deleted = 0; trash = 0 }
count_files account_id space (entry ∷ entries) =
    let rest = count_files account_id space entries in
    if not (entry.account_id == account_id) || not (entry.space_id == space.id)
    then rest
    else counted entry rest

abbrev summaries : String → ServerState → List SpaceSummary
summaries account_id s =
    map (λ space. count_files account_id space (values s.files))
      (keep (λ space. space.account_id == account_id) (values s.spaces))

-- Trash whose time is over goes, and the state is saved if there was any.
unfoldable pub sweep : Env → ℕ → Exec (Unit {0})
sweep env now w =
    (if prunes now w.state then (modify (prune_trash now) >> try_save env) w else (ok tt, w))

-- ListSpaces
unfoldable pub list_spaces : Env → ℕ → String → Exec (List SpaceSummary)
unfolding less sort_by keep count_files
list_spaces env now account_id = do
  sweep env now
  s ← get_state
  pure (sort_by (λ a b. less a.space.name b.space.name) (summaries account_id s))
