-- ===== src/Store/Conflict.antt =====
-- internal/server/store.go: nextConflictPathLocked, with what it uses of `fmt` and `path/filepath`.
mod Numerals
pub mod Fresh
mod Tests
use Numerals.{itoa}
use Prim.Native.Char.{Char, code}
use xcloud.Prelude.{
  ℕ, zero, suc, ◌+◌, String, Bool, true, false, not, ◌&&◌, ◌||◌, if◌then◌else◌, ◌==◌, leb, eqb,
  ◌<>◌, contains_char, any, length, Dict,
}
use xcloud.Model.{FileEntry}

-- filepath.Ext: the text from the last dot on, if that stands behind the last slash
unfoldable pub ext : String → String
unfolding contains_char
ext String.[] = ""
ext (String.◌∷◌ c s) =
    let later = ext s in
    if not (later == "")
    then later
    else if eqb (code c) 46 && not (contains_char 47 s)
    then String.◌∷◌ c s
    else ""

-- strings.TrimSuffix
unfoldable pub trim_suffix : String → String → String
trim_suffix String.[] suffix = ""
trim_suffix (String.◌∷◌ c s) suffix =
    let shorter = trim_suffix s suffix in
    if String.◌∷◌ c s == suffix then "" else String.◌∷◌ c shorter

-- the characters that the mapping function of strings.Map keeps
unfoldable pub is_device_char : ℕ → Bool
is_device_char c =
    (leb b'a' c && leb c b'z')
    || (leb b'A' c && leb c b'Z')
    || (leb b'0' c && leb c b'9')
    || eqb c b'-'
    || eqb c b'_'

unfoldable pub safe_device_chars : String → String
unfolding is_device_char
safe_device_chars String.[] = ""
safe_device_chars (String.◌∷◌ c s) =
    String.◌∷◌ (if is_device_char (code c) then c else "-") (safe_device_chars s)

-- The i-th candidate is numbered from the second on. `suffix` is all that follows the number.
unfoldable pub candidate : String → String → ℕ → String
unfolding ◌<>◌ itoa
candidate stem suffix i =
    if leb 2 i
    then stem <> " (conflict " <> itoa i <> " from " <> suffix
    else stem <> " (conflict from " <> suffix

-- conflictPathExistsLocked: some entry, of whatever account, has this path
unfoldable pub path_exists : Dict FileEntry → String → Bool
unfolding any
path_exists files path = any (λ (key, entry). entry.path == path) files

-- The `for` loop. One round for each entry is enough (see Fresh).
unfoldable pub search_candidate : (ℕ → Bool) → ℕ → ℕ → ℕ
search_candidate taken zero i = i
search_candidate taken (suc fuel) i =
    let next = search_candidate taken fuel (i + 1) in if taken i then next else i

-- `time` is the text of time.Unix(ts, 0).
unfoldable pub next_conflict_path : Dict FileEntry → String → String → String → String
next_conflict_path files path device_id time =
    let stem = trim_suffix path (ext path) in
    let suffix = safe_device_chars device_id <> " at " <> time <> ")" <> ext path in
    candidate stem suffix
      (search_candidate (λ i. path_exists files (candidate stem suffix i)) (length files) 1)

-- All that a run of nextConflictPathLocked computes with.
unfoldable pub conflict_path_run : Dict FileEntry → String → String → String → String
unfolding next_conflict_path ext trim_suffix safe_device_chars candidate path_exists
    search_candidate ◌<>◌
conflict_path_run = next_conflict_path
