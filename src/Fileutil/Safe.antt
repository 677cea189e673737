-- ===== src/Fileutil/Safe.antt =====
-- internal/fileutil/fileutil.go: which paths CleanRel accepts, and what it makes of them.
use Prim.Native.Char.{Char, code}
use text.Mathlib.TextEquality.{Char-path}
use mathlib.Core.List.{reverse_aux, reverse-reverse}
use mathlib.Core.Path.{ap₂}
use xcloud.Prelude.{
  String, ◌≡◌, refl, sym, ap, subst, ◌∙◌, Bool, true, false, ◌||◌, List, [], ◌∷◌, inl, inr, arith,
  reverse, if◌then◌else◌, ◌==◌, eq_iff, eqb, eqb_iff, replace_char, cons-ne_empty, split, cons_head,
  join, starts_with_char, all, Bool-cases,
}
use xcloud.Result.{Error, ok, err, empty_path, absolute_path, unsafe_segment}
use xcloud.Fileutil.Clean.{slash, clean, lex_step, lex_run, is_safe_segment, normalize, clean_rel}

is_slash : (c : Char) → eqb (code c) 47 ≡ true → slash ≡ c
is_slash c h = sym (Char-path c slash ((eqb_iff (code c) 47).0 h))

split_head : (s : String) → (p : String) × (ps : List String) × (split 47 s ≡ p ∷ ps)
unfolding split
split_head String.[] = ("", [], refl)
split_head (String.◌∷◌ c s) = let (p, ps, e) = split_head s in head_of (eqb (code c) 47) c e
  where
    head_of :
        (b : Bool) (c : Char) {p : String} {ps : List String}
        → split 47 s ≡ p ∷ ps
        → (q : String) × (qs : List String) × ((if b
              then "" ∷ split 47 s
              else cons_head c (split 47 s))
            ≡ q ∷ qs)
    head_of true c e = ("", split 47 s, refl)
    head_of false c {p} {ps} e = (String.◌∷◌ c p, ps, rw e)

join-cons_head :
    (c : Char) (parts : List String)
    → join slash (cons_head c parts) ≡ String.◌∷◌ c (join slash parts)
unfolding join
join-cons_head c [] = refl
join-cons_head c (p ∷ []) = refl
join-cons_head c (p ∷ q ∷ ps) = refl

join-slash :
    (p : String) (ps : List String)
    → join slash ("" ∷ p ∷ ps) ≡ String.◌∷◌ slash (join slash (p ∷ ps))
unfolding join
join-slash p ps = refl

-- Splitting at the slashes loses nothing.
join-split : (s : String) → join slash (split 47 s) ≡ s
unfolding split
join-split String.[] = unfold join in refl
join-split (String.◌∷◌ c s) = elim (Bool-cases (eqb (code c) 47)) [
  | inl e ↦
      let (p, ps, q) = split_head s in
      rw (e, q)
        (join-slash p ps ∙ ap₂ String.◌∷◌ (is_slash c e) (ap (join slash) (sym q) ∙ join-split s))
  | inr e ↦ rw e (join-cons_head c (split 47 s) ∙ ap (String.◌∷◌ c) (join-split s))
]

lex_run_safe :
    (rooted : Bool) (out segs : List String)
    → all is_safe_segment segs ≡ true
    → lex_run rooted out segs ≡ reverse_aux segs out
unfolding lex_run all
lex_run_safe rooted out [] h = refl
lex_run_safe rooted out (seg ∷ segs) h =
    let step : lex_step rooted out seg ≡ seg ∷ out =
      unfold lex_step is_safe_segment in ground arith in
    rw step (lex_run_safe rooted (seg ∷ out) segs (ground arith))

not_empty : (s : String) → all is_safe_segment (split 47 s) ≡ true → (s == "") ≡ false
unfolding all split is_safe_segment
not_empty String.[] h = cc
not_empty (String.◌∷◌ c s) h = cons-ne_empty c s

not_rooted : (s : String) → all is_safe_segment (split 47 s) ≡ true → starts_with_char 47 s ≡ false
unfolding all split is_safe_segment starts_with_char
not_rooted String.[] h = refl
not_rooted (String.◌∷◌ c s) h = ground arith

-- A relative path of safe segments is its own normal form.
clean_safe : (s : String) → all is_safe_segment (split 47 s) ≡ true → clean s ≡ s
unfolding clean
clean_safe s h = rw (not_rooted s h) (rw body (rw (not_empty s h)))
  where
    body : join slash (reverse (lex_run false [] (split 47 s))) ≡ s
    body = rw (lex_run_safe false [] (split 47 s) h) (rw reverse-reverse (join-split s))

abbrev is_safe : String → Bool
is_safe s = all is_safe_segment (split 47 s)

rooted-normalize :
    (path : String) → starts_with_char 47 path ≡ true → starts_with_char 47 (normalize path) ≡ true
unfolding starts_with_char normalize replace_char
rooted-normalize String.[] h = h
rooted-normalize (String.◌∷◌ c s) h = ground arith

not_special : (s : String) → is_safe s ≡ true → (s == "." || s == "/") ≡ false
unfolding all split is_safe_segment
not_special s h = ground (
  arith,
  eq_iff s ".",
  eq_iff s "/",
  λ (e : s ≡ "."). subst (λ t. is_safe t ≡ true) e h,
  λ (e : s ≡ "/"). subst (λ t. is_safe t ≡ true) e h,
)

-- Why CleanRel refuses a path.
abbrev pub rejection : String → Error
rejection path =
    if path == ""
    then empty_path
    else if starts_with_char 47 (normalize path) || starts_with_char 47 path
    then absolute_path
    else unsafe_segment

not_empty-normalize : (path : String) → is_safe (normalize path) ≡ true → (path == "") ≡ false
unfolding normalize replace_char all split is_safe_segment
not_empty-normalize String.[] h = cc
not_empty-normalize (String.◌∷◌ c s) h = cons-ne_empty c s

accepted : (path : String) → is_safe (normalize path) ≡ true → clean_rel path ≡ ok (normalize path)
unfolding clean_rel
accepted path h = ground (
  arith,
  not_empty-normalize path h,
  not_rooted (normalize path) h,
  rooted-normalize path,
  clean_safe (normalize path) h,
  not_special (normalize path) h,
)

refused : (path : String) → is_safe (normalize path) ≡ false → clean_rel path ≡ err (rejection path)
unfolding clean_rel
refused path h = ground arith

-- CleanRel accepts a path exactly when, with its backslashes turned into slashes, no segment is
-- empty, `.` or `..`; it returns that text unchanged, and otherwise the error of `rejection`.
pub clean_rel_exact :
    (path : String)
    → clean_rel path ≡ (
        if all is_safe_segment (split 47 (normalize path))
        then ok (normalize path)
        else err (rejection path))
clean_rel_exact path = elim (Bool-cases (is_safe (normalize path))) [
  | inl h ↦ rw h (accepted path h)
  | inr h ↦ rw h (refused path h)
]

normalize_idem : (s : String) → normalize (normalize s) ≡ normalize s
unfolding normalize replace_char
normalize_idem String.[] = refl
normalize_idem (String.◌∷◌ c s) = elim (Bool-cases (eqb (code c) 92)) [
  | inl e ↦ rw e (ap (String.◌∷◌ slash) (normalize_idem s))
  | inr e ↦ rw e (rw e (ap (String.◌∷◌ c) (normalize_idem s)))
]

accepted_safe :
    (path c : String)
    → clean_rel path ≡ ok c
    → (c ≡ normalize path) × (is_safe (normalize path) ≡ true)
accepted_safe path c h = ground (arith, clean_rel_exact path)

-- A path that CleanRel returned is accepted again, unchanged, and no segment of it is empty, `.` or
-- `..`.
pub clean_rel_idem :
    (path c : String)
    → clean_rel path ≡ ok c
    → (clean_rel c ≡ ok c) × (all is_safe_segment (split 47 c) ≡ true)
clean_rel_idem path c h =
    let (e, safe) = accepted_safe path c h in
    rw e ((clean_rel_exact (normalize path) ∙ again safe), safe)
  where
    again :
        is_safe (normalize path) ≡ true
        → (if is_safe (normalize (normalize path))
            then ok (normalize (normalize path))
            else err (rejection (normalize path)))
          ≡ ok (normalize path)
    again safe = rw (normalize_idem path) (rw safe)
