-- ===== src/Client/Local.antt =====
-- internal/client: what an engine keeps and what it takes from outside, and actions on it.
pub mod Keeps
pub mod Cursor
use xcloud.Prelude.{ℕ, ◌+◌, String, Bool, true, false, List, Option, ℤ, if◌then◌else◌, Dict}
use xcloud.Model.{
  Event, ChunkRef, CommitRequest, CommitResponse, DeleteRequest, LocalFileState, SyncRecordRequest,
}
use xcloud.Result.{Result, ok, err, Error, cancelled}

-- What a path holds: a file with its bytes and its modification time, a directory, or something
-- that is neither, such as a pipe.
pub data Node : Type 0 where
  file : List ℕ → ℤ → Node
  dir : Node
  special : Node

-- The server as API sees it: each call answers or fails, and may change the server.
pub record Remote : Type 1 where
  pub State : Type 0
  pub events : ℕ → State → Result (List Event) × State
  pub download_chunk : String → State → Result (List ℕ) × State
  pub check_chunks : List String → State → Result (List String) × State
  pub upload_chunk : String → List ℕ → State → Result (Unit {0}) × State
  pub commit : CommitRequest → State → Result CommitResponse × State
  pub delete : DeleteRequest → State → Result CommitResponse × State
  pub report_sync_record : SyncRecordRequest → State → Result (Unit {0}) × State

-- The engine's settings, and what it takes from outside the repository: ids, SHA-256, the time, as a
-- number and as text, how long a step takes, an error's text, whether the context is cancelled at
-- its n-th check, whether the state file can be written, and which paths can be changed and read.
pub record Engine : Type 0 where
  pub device_id : String
  pub root : String
  pub space_id : String
  pub chunk_size : ℕ
  pub random_id : ℕ → String
  pub sha256_hex : List ℕ → String
  pub now : ℕ
  pub time_text : String
  pub elapsed : ℤ
  pub error_text : Error → String
  pub is_cancelled : ℕ → Bool
  pub state_writable : ℕ → Bool
  pub may_change : String → Bool
  pub may_read : String → Bool

-- StateData
pub record StateData : Type 0 where
  pub files : Dict LocalFileState
  pub last_event_seq : ℕ
  pub space_id : String
  pub reported_dirs : Dict Bool

-- The engine at work. The disk is what is under the root, by paths relative to it; `saved` is what
-- the state file holds; `checks`, `saves` and `issued` count the checks of the context, the writes
-- of the state file and the ids drawn.
pub record Device (S : Type 0) : Type 0 where
  pub disk : Dict Node
  pub memory : StateData
  pub saved : StateData
  pub checks : ℕ
  pub saves : ℕ
  pub issued : ℕ
  pub remote : S

-- A step returns or fails, and what it did before a failure stays done.
abbrev pub Act : Type 0 → Type 0 → Type 0
Act S A = Device S → Result A × Device S

module _ {S A : Type 0} where
  abbrev pub pure : A → Act S A
  pure a d = (ok a, d)

  abbrev pub raise : Error → Act S A
  raise e d = (err e, d)

  abbrev pub lift : Result A → Act S A
  lift r d = (r, d)

module _ {S A B : Type 0} where
  abbrev pub resume : Result A → (A → Act S B) → Act S B
  resume (ok a) f d = f a d
  resume (err e) f d = (err e, d)

  infixl 5 ◌>>=◌ ◌>>◌
  abbrev pub ◌>>=◌ : Act S A → (A → Act S B) → Act S B
  ◌>>=◌ m f d = let (r, d') = m d in resume r f d'

  abbrev pub ◌>>◌ : Act S A → Act S B → Act S B
  m >> k = m >>= λ _. k

module _ {S : Type 0} where
  -- ctx.Err()
  abbrev pub check_context : Engine → Act S (Unit {0})
  check_context e d =
      (if e.is_cancelled d.checks then err cancelled else ok tt, record d { checks = d.checks + 1 })

  -- fileutil.NewID
  abbrev pub new_id : Engine → Act S String
  new_id e d = (ok (e.random_id d.issued), record d { issued = d.issued + 1 })

  -- What a call of the server does.
  abbrev answered : {A : Type 0} → Device S → Result A × S → Result A × Device S
  answered d (r, s) = (r, record d { remote = s })

  abbrev pub call : {A : Type 0} → (S → Result A × S) → Act S A
  call f d = answered d (f d.remote)

  abbrev pub get_device : Act S (Device S)
  get_device d = (ok d, d)

-- reportRecord: the record that is sent, and the call, whose error is dropped
abbrev pub record_of : Engine → String → String → String → String → SyncRecordRequest
record_of e action status path error = record {
  space_id = e.space_id;
  device_id = e.device_id;
  root_path = e.root;
  path = path;
  action = action;
  status = status;
  error = error;
  duration_millis = e.elapsed;
}

abbrev pub error_of : Engine → Option Error → String
error_of e Option.none = ""
error_of e (Option.some x) = e.error_text x

module _ (R : Remote) (e : Engine) where
  unfoldable pub report_record :
      String → String → String → Option Error → Device R.State → Device R.State
  report_record action status path error d = record d {
    remote = (R.report_sync_record (record_of e action status path (error_of e error)) d.remote).1;
  }
