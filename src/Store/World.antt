-- ===== src/Store/World.antt =====
-- internal/server/store.go: the store's state with what it keeps on disk, actions on it, and
-- saveLocked. The mutex makes an operation one step.
pub mod Keeps
use xcloud.Prelude.{ℕ, ◌+◌, String, ◌≡◌, refl, Bool, true, false, List, if◌then◌else◌, Dict}
use xcloud.Model.{ServerState}
use xcloud.Result.{Result, ok, err, Error, metadata_not_written, control_not_written}

-- What the store takes from outside the repository: random ids, SHA-256 in hexadecimal, the case
-- mappings of Go's `strings`, the local time as text, whether a write to disk succeeds, and whether
-- a chunk's file that is there can be opened, read and closed.
pub record Env : Type 0 where
  pub random_id : ℕ → String
  pub sha256_hex : List ℕ → String
  pub to_lower : String → String
  pub equal_fold : String → String → Bool
  pub format_time : ℕ → String
  pub metadata_writable : ServerState → Bool
  pub control_writable : ServerState → Bool
  pub chunk_writable : String → Bool
  pub chunk_readable : String → Bool

-- `state` is in memory, `metadata` is what metadata.json holds and `control` what server.db holds;
-- `chunk_files` is the folder of chunks, by hash; `issued` counts the ids that were drawn.
pub record World : Type 0 where
  pub state : ServerState
  pub metadata : ServerState
  pub control : ServerState
  pub chunk_files : Dict (List ℕ)
  pub issued : ℕ

-- An operation returns or fails, and what it wrote before a failure stays written.
abbrev pub Exec : Type 0 → Type 0
Exec A = World → Result A × World

module _ {A : Type 0} where
  abbrev pub pure : A → Exec A
  pure a w = (ok a, w)

  abbrev pub raise : Error → Exec A
  raise e w = (err e, w)

  abbrev pub lift : Result A → Exec A
  lift r w = (r, w)

module _ {A B : Type 0} where
  abbrev pub resume : Result A → (A → Exec B) → Exec B
  resume (ok a) f w = f a w
  resume (err e) f w = (err e, w)

  infixl 5 ◌>>=◌ ◌>>◌
  abbrev pub ◌>>=◌ : Exec A → (A → Exec B) → Exec B
  ◌>>=◌ m f w = let (r, w') = m w in resume r f w'

  abbrev pub ◌>>◌ : Exec A → Exec B → Exec B
  m >> k = m >>= λ _. k

-- if b { return errors.New(…) }
abbrev pub refuse_if : Bool → Error → Exec (Unit {0})
refuse_if b e = if b then raise e else pure tt

abbrev pub get_state : Exec ServerState
get_state w = (ok w.state, w)

abbrev pub modify : (ServerState → ServerState) → Exec (Unit {0})
modify f w = (ok tt, record w { state = f w.state })

module _ (env : Env) where
  -- fileutil.NewID
  abbrev pub new_id : Exec String
  new_id w = (ok (env.random_id w.issued), record w { issued = w.issued + 1 })

  -- saveControlLocked
  unfoldable pub save_control : Exec (Unit {0})
  save_control w =
      if env.control_writable w.state
      then (ok tt, record w { control = w.state })
      else (err control_not_written, w)

  -- saveLocked
  unfoldable pub save : Exec (Unit {0})
  save w =
      if env.metadata_writable w.state
      then save_control (record w { metadata = w.state })
      else (err metadata_not_written, w)
