-- ===== src/Fileutil/Clean.antt =====
-- internal/fileutil/fileutil.go: CleanRel, with what the server uses of `path/filepath`.
use Prim.Native.Char.{Char, char, code}
use xcloud.Prelude.{
  String, Bool, not, ◌||◌, List, [], ◌∷◌, if◌then◌else◌, ◌==◌, eqb, split, join, replace_char,
  starts_with_char, all, reverse,
}
use xcloud.Result.{Result, ok, err, empty_path, absolute_path, unsafe_segment, invalid_path}

abbrev pub slash : Char
slash = char 47 tt

-- A `..` in filepath.Clean takes the segment before it away. `out` has the last segment first.
unfoldable pub pop_segment : Bool → List String → List String
pop_segment rooted [] = if rooted then [] else ".." ∷ []
pop_segment rooted (seg ∷ out) = if seg == ".." then ".." ∷ seg ∷ out else out

-- One segment of filepath.Clean.
unfoldable pub lex_step : Bool → List String → String → List String
unfolding pop_segment
lex_step rooted out seg =
    if seg == "" || seg == "."
    then out
    else if seg == ".."
    then pop_segment rooted out
    else seg ∷ out

unfoldable pub lex_run : Bool → List String → List String → List String
unfolding lex_step
lex_run rooted out [] = out
lex_run rooted out (seg ∷ segs) = lex_run rooted (lex_step rooted out seg) segs

-- filepath.Clean
unfoldable pub clean : String → String
unfolding lex_run split join starts_with_char
clean path =
    let rooted = starts_with_char 47 path in
    let body = join slash (reverse (lex_run rooted [] (split 47 path))) in
    if rooted then String.◌∷◌ slash body else if body == "" then "." else body

-- part != "" && part != "." && part != ".."
unfoldable pub is_safe_segment : String → Bool
is_safe_segment part = not (part == "" || part == "." || part == "..")

-- strings.ReplaceAll(path, "\\", "/")
unfoldable pub normalize : String → String
unfolding replace_char
normalize = replace_char 92 slash

-- CleanRel. IsAbs(path) is the test of the same line on the normalized path.
unfoldable pub clean_rel : String → Result String
clean_rel path =
    if path == ""
    then err empty_path
    else if starts_with_char 47 (normalize path) || starts_with_char 47 path
    then err absolute_path
    else if not (all is_safe_segment (split 47 (normalize path)))
    then err unsafe_segment
    else if clean (normalize path) == "." || clean (normalize path) == "/"
    then err invalid_path
    else ok (clean (normalize path))

-- All that a run of CleanRel computes with.
unfoldable pub clean_rel_run : String → Result String
unfolding clean_rel normalize is_safe_segment clean all split starts_with_char
clean_rel_run = clean_rel

-- path[:i+1] for the last slash, at i
unfoldable pub up_to_slash : String → String
up_to_slash String.[] = ""
up_to_slash (String.◌∷◌ c s) =
    let before = up_to_slash s in
    if not (before == "") then String.◌∷◌ c before else if eqb (code c) 47 then "/" else ""

-- filepath.Dir
unfoldable pub dir : String → String
unfolding up_to_slash clean
dir path = clean (up_to_slash path)
