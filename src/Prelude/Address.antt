-- ===== src/Prelude/Address.antt =====
-- What the program uses of Go's `net` and `strconv`.
use Prim.Native.Nat.{ℕ, ◌+◌, ◌*◌, ◌-◌}
use Prim.Native.Char.{Char, code}
use Prim.Native.String.{String}
use text.Mathlib.Text.{◌==◌}
use mathlib.Core.Option.{Option, none, some}
use mathlib.Core.Bool.{not, ◌&&◌, ◌||◌}
use xcloud.Prelude.Tests.{leb, ltb, eqb, if◌then◌else◌}
use xcloud.Prelude.Int.{ℤ, pos, negsuc}
use xcloud.Prelude.Strings.{contains_char}

abbrev cons_first : Char → Option (String × String) → Option (String × String)
cons_first c none = none
cons_first c (some (before, after)) = some (String.◌∷◌ c before, after)

abbrev or_cut : Option (String × String) → Option (String × String) → Option (String × String)
or_cut none other = other
or_cut (some cut) other = some cut

-- What is before and behind the first, and the last, character `sep`.
unfoldable pub cut_first : ℕ → String → Option (String × String)
cut_first sep String.[] = none
cut_first sep (String.◌∷◌ c s) =
    let later = cons_first c (cut_first sep s) in if eqb (code c) sep then some ("", s) else later

unfoldable pub cut_last : ℕ → String → Option (String × String)
cut_last sep String.[] = none
cut_last sep (String.◌∷◌ c s) =
    or_cut (cons_first c (cut_last sep s)) (if eqb (code c) sep then some ("", s) else none)

-- `[host]` and what is behind it; 58 is the colon, 91 and 93 are the brackets.
abbrev split_bracketed : Option (String × String) → Option (String × String)
split_bracketed none = none
split_bracketed (some (host, String.[])) = none
split_bracketed (some (host, String.◌∷◌ c port)) =
    if not (eqb (code c) 58)
      || contains_char 58 port
      || contains_char 91 host
      || contains_char 91 port
      || contains_char 93 port
    then none
    else some (host, port)

abbrev split_plain : Option (String × String) → Option (String × String)
split_plain none = none
split_plain (some (host, port)) =
    if contains_char 58 host
      || contains_char 91 host
      || contains_char 91 port
      || contains_char 93 host
      || contains_char 93 port
    then none
    else some (host, port)

-- net.SplitHostPort
unfoldable pub split_host_port : String → Option (String × String)
unfolding cut_first cut_last contains_char
split_host_port String.[] = none
split_host_port (String.◌∷◌ c s) =
    if eqb (code c) 91
    then split_bracketed (cut_first 93 s)
    else split_plain (cut_last 58 (String.◌∷◌ c s))

unfoldable pub read_digits : ℕ → String → Option ℕ
read_digits n String.[] = some n
read_digits n (String.◌∷◌ c s) =
    let rest = read_digits (n * 10 + (code c - 48)) s in
    if leb 48 (code c) && leb (code c) 57 then rest else none

abbrev magnitude : String → Option ℕ
magnitude s = if s == "" then none else read_digits 0 s

abbrev as_pos : Option ℕ → Option ℤ
as_pos none = none
as_pos (some n) = if ltb n 9223372036854775808 then some (pos n) else none

abbrev negated : ℕ → ℤ
negated n = if eqb n 0 then pos 0 else negsuc (n - 1)

abbrev as_neg : Option ℕ → Option ℤ
as_neg none = none
as_neg (some n) = if leb n 9223372036854775808 then some (negated n) else none

-- strconv.Atoi of a 64-bit system
unfoldable pub atoi : String → Option ℤ
unfolding read_digits
atoi String.[] = none
atoi (String.◌∷◌ c s) =
    if eqb (code c) 45
    then as_neg (magnitude s)
    else if eqb (code c) 43
    then as_pos (magnitude s)
    else as_pos (magnitude (String.◌∷◌ c s))

-- What is behind a prefix.
unfoldable pub behind : String → String → Option String
behind String.[] s = some s
behind (String.◌∷◌ p ps) String.[] = none
behind (String.◌∷◌ p ps) (String.◌∷◌ c s) =
    let rest = behind ps s in if eqb (code p) (code c) then rest else none

abbrev or_whole : String → Option String → String
or_whole s none = s
or_whole s (some rest) = rest

-- strings.TrimPrefix
unfoldable pub trim_prefix : String → String → String
unfolding behind
trim_prefix s prefix = or_whole s (behind prefix s)

-- strings.TrimSuffix for one character
unfoldable pub trim_last : ℕ → String → String
trim_last sep String.[] = ""
trim_last sep (String.◌∷◌ c String.[]) = if eqb (code c) sep then "" else String.◌∷◌ c ""
trim_last sep (String.◌∷◌ c (String.◌∷◌ d s)) = String.◌∷◌ c (trim_last sep (String.◌∷◌ d s))
