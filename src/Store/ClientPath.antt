-- ===== src/Store/ClientPath.antt =====
-- internal/server/store.go: isClientAbsolutePath and cleanClientPath, of a server on a system where
-- filepath.IsAbs is the test for a slash at the start.
pub mod Squeezed
mod Tests
use Prim.Native.Char.{Char, char, code}
use xcloud.Prelude.{
  ℕ, zero, suc, String, Bool, true, false, not, ◌&&◌, ◌||◌, if◌then◌else◌, leb, eqb, trim_space,
  replace_char, starts_with_char, ◌<>◌,
}
use xcloud.Fileutil.{clean}

abbrev pub backslash : Char
backslash = char 92 tt

abbrev pub is_backslash : Char → Bool
is_backslash c = eqb (code c) 92

abbrev is_letter : ℕ → Bool
is_letter c = (leb 97 c && leb c 122) || (leb 65 c && leb c 90)

-- The part of isClientAbsolutePath with the drive letter.
abbrev pub has_drive : String → Bool
has_drive (String.◌∷◌ c (String.◌∷◌ d (String.◌∷◌ e s))) =
    is_letter (code c) && eqb (code d) 58 && (is_backslash e || eqb (code e) 47)
has_drive s = false

-- strings.HasPrefix(path, `\\`)
abbrev pub is_share : String → Bool
is_share (String.◌∷◌ c (String.◌∷◌ d s)) = is_backslash c && is_backslash d
is_share s = false

-- isClientAbsolutePath; a text that begins with two slashes begins with one.
unfoldable pub is_client_absolute_path : String → Bool
unfolding starts_with_char
is_client_absolute_path path = starts_with_char 47 path || is_share path || has_drive path

-- strings.Contains(s, "\\\\"), `after` a backslash or not
unfoldable pub has_pair : Bool → String → Bool
has_pair after String.[] = false
has_pair after (String.◌∷◌ c s) = (after && is_backslash c) || has_pair (is_backslash c) s

-- strings.ReplaceAll(s, "\\\\", "\\"). The second backslash of a pair is left out, and begins no
-- pair of its own: `after` says that the character before is the first of a pair, if there is one.
unfoldable pub replace_pairs : Bool → String → String
replace_pairs after String.[] = ""
replace_pairs after (String.◌∷◌ c s) =
    let rest = replace_pairs (is_backslash c && not after) s in
    if after && is_backslash c then rest else String.◌∷◌ c rest

unfoldable pub char_count : String → ℕ
char_count String.[] = 0
char_count (String.◌∷◌ c s) = suc (char_count s)

-- for strings.Contains(path, "\\\\") { … }, for as many rounds as the fuel says
unfoldable pub squeeze_loop : ℕ → String → String
squeeze_loop zero path = path
squeeze_loop (suc n) path =
    let shorter = squeeze_loop n (replace_pairs false path) in
    if has_pair false path then shorter else path

unfoldable pub squeeze : String → String
unfolding squeeze_loop char_count replace_pairs has_pair
squeeze path = squeeze_loop (char_count path) path

-- strings.TrimLeft(s, "\\")
unfoldable pub trim_backslashes : String → String
trim_backslashes String.[] = ""
trim_backslashes (String.◌∷◌ c s) = if is_backslash c then trim_backslashes s else String.◌∷◌ c s

-- path[2:] of a path that begins with two characters of one byte
abbrev behind_share : String → String
behind_share (String.◌∷◌ c (String.◌∷◌ d s)) = s
behind_share s = s

-- cleanClientPath, of a path that is not absolute for the server's own system
abbrev pub clean_windows_path : String → String
clean_windows_path path =
    if is_share path
    then String.◌∷◌ backslash
        (String.◌∷◌ backslash (squeeze (trim_backslashes (behind_share path))))
    else squeeze path

-- cleanClientPath
unfoldable pub clean_client_path : String → String
unfolding trim_space starts_with_char clean replace_char squeeze trim_backslashes
clean_client_path path =
    if starts_with_char 47 (trim_space path)
    then clean (trim_space path)
    else clean_windows_path (replace_char 47 backslash (trim_space path))
