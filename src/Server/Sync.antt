-- ===== src/Server/Sync.antt =====
-- internal/server/http.go: the sync API, its guard and its handlers.
pub mod Guarded
use Prim.Native.Char.{code}
use xcloud.Prelude.{
  ℕ, ◌+◌, ◌*◌, ◌-◌, String, Bool, true, false, not, ◌&&◌, ◌||◌, List, [], ◌∷◌, Option, none, some,
  ◌==◌, if◌then◌else◌, ltb, eqb, get, trim_space, trim_prefix, contains_char,
}
use xcloud.Model.{
  Account, FileEntry, Event, CommitRequest, CommitResponse, DeleteRequest, ServerState,
}
use xcloud.Result.{Result, ok, err, Error}
use xcloud.Store.World.{Env, World, Exec, pure, resume, get_state, ◌>>=◌, ◌>>◌}
use xcloud.Store.Version.{space_found}
use xcloud.Store.Accounts.Login.{authenticate_sync_token}
use xcloud.Store.Devices.{touch_client_device}
use xcloud.Store.Folders.{mark_children_reported}
use xcloud.Store.Folders.Report.{FolderReportRequest, FolderReportResponse, report_folder}
use xcloud.Store.Lists.{list_files}
use xcloud.Store.Lists.Status.{FolderStatusResponse, folder_status}
use xcloud.Store.Events.{events_after}
use xcloud.Store.Chunks.{check_chunks, put_chunk, grant_account_chunk, has_account_chunk}
use xcloud.Store.Commit.Request.{commit}
use xcloud.Store.Delete.{delete}

-- The headers and the query of a request that syncAuth reads.
pub record Headers : Type 0 where
  pub authorization : String
  pub space : String
  pub space_query : String
  pub device : String
  pub root : String

-- syncContext
pub record SyncContext : Type 0 where
  pub account : Account
  pub space_id : String
  pub device_id : String
  pub root_path : String

-- What a handler writes behind the status.
pub data Body : Type 0 where
  nothing acknowledged : Body
  failure : String → Body
  reported : FolderReportResponse → Body
  folders : FolderStatusResponse → Body
  files : List FileEntry → Body
  happened : List Event → Body
  missing_chunks : List String → Body
  bytes : Option (List ℕ) → Body
  committed : CommitResponse → Body

pub record Reply : Type 0 where
  pub status : ℕ
  pub body : Body

-- A handler of the API on the store.
abbrev pub Handler : Type 0
Handler = World → Reply × World

-- decodeJSON, or reading the body: what it decodes to, or the text of its error
pub data Decoded (A : Type 0) : Type 0 where
  malformed : String → Decoded A
  decoded : A → Decoded A

abbrev answers : ℕ → Body → Handler
answers status body w = (record { status = status; body = body }, w)

-- strings.Contains(text, ".."); `after_dot` says whether a dot stands in front.
unfoldable pub has_dots : Bool → String → Bool
has_dots after_dot String.[] = false
has_dots after_dot (String.◌∷◌ c s) =
    after_dot && eqb (code c) b'.' || has_dots (eqb (code c) b'.') s

unfoldable pub is_bad_space : String → Bool
unfolding contains_char has_dots
is_bad_space space_id =
    contains_char 47 space_id || contains_char 92 space_id || has_dots false space_id

abbrev or_else : String → String → String
or_else text other = if text == "" then other else text

-- The space of a request: its header, its query, or `default`.
unfoldable pub space_of : Headers → String
unfolding trim_space
space_of h = or_else (or_else (trim_space h.space) (trim_space h.space_query)) "default"

abbrev pub token_of : Headers → String
token_of h = trim_prefix h.authorization "Bearer "

abbrev pub context_of : Headers → Account → SyncContext
context_of h account = record {
  account = account;
  space_id = space_of h;
  device_id = trim_space h.device;
  root_path = trim_space h.root;
}

-- fmtSscanf: the number behind a sign, or none where a character is no digit. A negative number
-- stands as 0, behind which all events are too. Go's int64 wraps where the number has more than 18
-- digits; the model's does not.
unfoldable pub scan_digits : ℕ → String → Option ℕ
scan_digits n String.[] = some n
scan_digits n (String.◌∷◌ c s) =
    let rest = scan_digits (n * 10 + (code c - b'0')) s in
    if ltb (code c) b'0' || ltb b'9' (code c) then none else rest

abbrev or_zero : Option ℕ → ℕ
or_zero none = 0
or_zero (some n) = n

abbrev unless_no_number : Option ℕ → Option ℕ
unless_no_number none = none
unless_no_number (some n) = some 0

unfoldable pub scan_number : String → ℕ
unfolding scan_digits
scan_number String.[] = 0
scan_number (String.◌∷◌ c s) =
    if eqb (code c) b'-'
    then or_zero (unless_no_number (scan_digits 0 s))
    else or_zero (scan_digits 0 (String.◌∷◌ c s))

-- The requests of the sync API: what is in the path, the query and the decoded body.
pub data SyncRoute : Type 0 where
  post_folder_report : Decoded FolderReportRequest → SyncRoute
  get_folder_status get_files : SyncRoute
  post_children_complete : Decoded (String × String) → SyncRoute
  get_events : String → SyncRoute
  post_chunks_check : Decoded (List String) → SyncRoute
  put_chunks : String → Decoded (List ℕ) → SyncRoute
  get_chunks : String → SyncRoute
  post_commit : Decoded CommitRequest → SyncRoute
  post_delete : Decoded DeleteRequest → SyncRoute

-- r.URL.Path is one of the three that need no space
abbrev pub is_folder_route : SyncRoute → Bool
is_folder_route (post_folder_report req) = true
is_folder_route get_folder_status = true
is_folder_route (post_children_complete req) = true
is_folder_route get_files = false
is_folder_route (get_events after) = false
is_folder_route (post_chunks_check req) = false
is_folder_route (put_chunks hash req) = false
is_folder_route (get_chunks hash) = false
is_folder_route (post_commit req) = false
is_folder_route (post_delete req) = false

module _ (env : Env) (error_text : Error → String) (now : ℕ) where
  abbrev on_decoded : {A : Type 0} → Decoded A → (A → Handler) → Handler
  on_decoded (malformed message) next = answers 400 (failure message)
  on_decoded (decoded req) next = next req

  -- The result of an operation as an answer, or its error as a bad request.
  abbrev replied : {A : Type 0} → ℕ → (A → Body) → Result A × World → Reply × World
  replied status body (ok a, w) = answers status (body a) w
  replied status body (err e, w) = answers 400 (failure (error_text e)) w

  abbrev with_suggestion : String → FolderReportRequest → FolderReportRequest
  with_suggestion space_id req =
      if trim_space req.suggested_space_id == ""
      then record req { suggested_space_id = space_id }
      else req

  module _ (ctx : SyncContext) where
    -- reportFolder
    unfoldable pub handle_report : FolderReportRequest → Handler
    handle_report req w =
        replied 200 reported
          (report_folder env now ctx.account.id (with_suggestion ctx.space_id req) w)

    -- childrenComplete
    unfoldable pub handle_complete : String × String → Handler
    handle_complete (device_id, root_path) w =
        replied 200 (λ done. acknowledged)
          (mark_children_reported env now ctx.account.id (or_else device_id ctx.device_id) root_path
            w)

    -- putChunk
    unfoldable pub handle_put : String → List ℕ → Handler
    handle_put hash received w =
        replied 204 (λ done. nothing)
          ((put_chunk env hash received >> grant_account_chunk env ctx.account.id hash) w)

    -- getChunk; the path of the chunk is no error where the account has the chunk.
    unfoldable pub handle_get : String → Handler
    handle_get hash w =
        (if has_account_chunk ctx.account.id hash w
            then answers 200 (bytes (get hash w.chunk_files))
            else answers 403 (failure "chunk is not available to this account"))
          w

    -- What each route does behind syncAuth.
    unfoldable pub handle : SyncRoute → Handler
    unfolding scan_number
    handle (post_folder_report req) w = on_decoded req handle_report w
    handle get_folder_status w =
        answers 200 (folders (folder_status ctx.account.id ctx.device_id w.state)) w
    handle (post_children_complete req) w = on_decoded req handle_complete w
    handle get_files w = answers 200 (files (list_files ctx.account.id ctx.space_id w.state)) w
    handle (get_events after) w =
        answers 200
          (happened (events_after ctx.account.id ctx.space_id (scan_number after) w.state)) w
    handle (post_chunks_check req) w =
        on_decoded req
          (λ chunks. answers 200 (missing_chunks (check_chunks ctx.account.id chunks w))) w
    handle (put_chunks hash req) w = on_decoded req (handle_put hash) w
    handle (get_chunks hash) w = handle_get hash w
    handle (post_commit req) w =
        on_decoded req
          (λ request v.
            replied 200 committed (commit env now ctx.account.id ctx.space_id request v))
          w
    handle (post_delete req) w =
        on_decoded req
          (λ request v.
            replied 200 committed (delete env now ctx.account.id ctx.space_id request v))
          w

  abbrev touch_then : Handler → Result (Unit {0}) × World → Reply × World
  touch_then next (r, w) = next w

  -- syncAuth behind the space: where the route needs one, the space, the device and the root.
  unfoldable pub require_space : Headers → Bool → Account → Handler → Handler
  unfolding trim_space
  require_space h is_folder account next w =
      if is_folder
      then next w
      else if trim_space h.device == "" || trim_space h.root == ""
      then answers 403 (failure "client device and root are required") w
      else if not (space_found account.id (space_of h) w.state)
      then answers 403 (failure "sync space not found") w
      else touch_then next (touch_client_device env now account.id (trim_space h.device) "" "" w)

  unfoldable pub admit : Headers → Bool → (SyncContext → Handler) → Option Account → Handler
  admit h is_folder next none = answers 401 (failure "unauthorized")
  admit h is_folder next (some account) =
      if not account.sync_enabled
      then answers 403 (failure "account sync is disabled")
      else if is_bad_space (space_of h)
      then answers 400 (failure "invalid sync space")
      else require_space h is_folder account (next (context_of h account))

  abbrev admit_found :
      Headers → Bool → (SyncContext → Handler) → Result (Option Account) × World → Reply × World
  admit_found h is_folder next (ok found, w) = admit h is_folder next found w
  admit_found h is_folder next (err e, w) = answers 401 (failure "unauthorized") w

  -- syncAuth
  unfoldable pub sync_auth : Headers → Bool → (SyncContext → Handler) → Handler
  unfolding trim_prefix
  sync_auth h is_folder next w =
      admit_found h is_folder next (authenticate_sync_token env now (token_of h) w)

  -- A request of the sync API, guarded as in Handler.
  unfoldable pub serve_sync : Headers → SyncRoute → Handler
  serve_sync h route = sync_auth h (is_folder_route route) (λ ctx. handle ctx route)
