-- ===== src/Client/Apply/Copies.antt =====
-- internal/client/sync.go: the paths that conflictLocalPath gives.
use xcloud.Prelude.{
  ◌+◌, ◌≤◌, ◌<◌, String, ◌≡◌, refl, ap, inl, inr, false, ◌==◌, ◌<>◌, eq_iff, arith, Bool-cases,
}
use xcloud.Store.Conflict.{ext, trim_suffix, safe_device_chars}
use xcloud.Store.ClientPath.{char_count}
use xcloud.Client.Local.{Engine}
use xcloud.Client.Apply.{conflict_local_path}

char_count-append : (s t : String) → char_count (s <> t) ≡ char_count s + char_count t
unfolding char_count ◌<>◌
char_count-append String.[] t = omega arith
char_count-append (String.◌∷◌ c s) t = let rest = char_count-append s t in omega arith

char_count-trim_suffix :
    (s suffix : String) → char_count s ≤ char_count (trim_suffix s suffix) + char_count suffix
unfolding char_count trim_suffix
char_count-trim_suffix String.[] suffix = omega arith
char_count-trim_suffix (String.◌∷◌ c s) suffix = elim (Bool-cases (String.◌∷◌ c s == suffix)) [
  | inl e ↦ let same = (eq_iff (String.◌∷◌ c s) suffix).0 e in rw (e, ← same) (omega arith)
  | inr e ↦ rw e (let rest = char_count-trim_suffix s suffix in omega arith)
]

-- A conflict copy has a path of its own.
pub conflict_other : (e : Engine) (path : String) → (path == conflict_local_path e path) ≡ false
unfolding conflict_local_path char_count
conflict_other e path = elim (Bool-cases (path == conflict_local_path e path)) [
  | inr other ↦ other
  | inl same ↦
      let equal = ap char_count ((eq_iff path (conflict_local_path e path)).0 same) in
      absurd (
        omega (
          arith,
          longer (trim_suffix path (ext path)) (ext path),
          char_count-trim_suffix path (ext path),
        ))
]
  where
    one_char : char_count ")" ≡ 1
    one_char = refl

    longer :
        (stem end : String)
        → char_count stem + char_count end
          < char_count (
              stem
              <> " (local conflict from "
              <> safe_device_chars e.device_id
              <> " at "
              <> e.time_text
              <> ")"
              <> end)
    longer stem end =
        let device = safe_device_chars e.device_id in
        omega (
          arith,
          char_count-append stem
              (" (local conflict from " <> device <> " at " <> e.time_text <> ")" <> end),
          char_count-append " (local conflict from "
              (device <> " at " <> e.time_text <> ")" <> end),
          char_count-append device (" at " <> e.time_text <> ")" <> end),
          char_count-append " at " (e.time_text <> ")" <> end),
          char_count-append e.time_text (")" <> end),
          char_count-append ")" end,
          one_char,
        )
