-- ===== src/Store/ClientPath/Squeezed.antt =====
-- internal/server/store.go: the loops of cleanClientPath that squeeze runs of backslashes.
use xcloud.Prelude.{
  ℕ, zero, suc, ◌≤◌, ◌<◌, String, ◌≡◌, refl, ap, ◌∙◌, sym, inl, inr, Bool, true, false, not, ◌&&◌,
  if◌then◌else◌, Bool-cases, arith,
}
use xcloud.Store.ClientPath.{
  is_backslash, has_pair, replace_pairs, char_count, squeeze_loop, squeeze,
}

-- What the loop is for: of every run of backslashes the first one alone is left.
unfoldable pub one_of_each : Bool → String → String
one_of_each after String.[] = ""
one_of_each after (String.◌∷◌ c s) =
    let rest = one_of_each (is_backslash c) s in
    if after && is_backslash c then rest else String.◌∷◌ c rest

no_longer : (after : Bool) (s : String) → char_count (replace_pairs after s) ≤ char_count s
unfolding replace_pairs char_count
no_longer after String.[] = omega arith
no_longer after (String.◌∷◌ c s) =
    let rest = no_longer (is_backslash c && not after) s in ground arith

-- A round on a path with a pair makes it shorter.
shorter :
    (after : Bool) (s : String)
    → has_pair after s ≡ true
    → char_count (replace_pairs after s) < char_count s
unfolding replace_pairs char_count has_pair
shorter after String.[] h = cc
shorter true (String.◌∷◌ c s) h = elim (Bool-cases (is_backslash c)) [
  | inl e ↦ let rest = no_longer false s in rw e (omega arith)
  | inr e ↦ let rest = shorter false s (rw e at h) in rw e (omega arith)
]
shorter false (String.◌∷◌ c s) h = elim (Bool-cases (is_backslash c)) [
  | inl e ↦ let rest = shorter true s (rw e at h) in rw e (omega arith)
  | inr e ↦ let rest = shorter false s (rw e at h) in rw e (omega arith)
]

-- A round keeps what is left in the end.
one_of_each-replaced :
    (before after : Bool) (s : String)
    → (after ≡ true → before ≡ true)
    → one_of_each before (replace_pairs after s) ≡ one_of_each before s
unfolding one_of_each replace_pairs
one_of_each-replaced before after String.[] h = refl
one_of_each-replaced before true (String.◌∷◌ c s) h = elim (Bool-cases (is_backslash c)) [
  | inl e ↦ rw (e, h refl) (one_of_each-replaced true false s (λ k. refl))
  | inr e ↦ rw (e, h refl, e) (ap (String.◌∷◌ c) (one_of_each-replaced false false s (λ k. k)))
]
one_of_each-replaced before false (String.◌∷◌ c s) h = elim (Bool-cases (is_backslash c)) [
  | inl e ↦ let rest = one_of_each-replaced true true s (λ k. refl) in rw (e, rest) refl
  | inr e ↦ let rest = one_of_each-replaced false false s (λ k. k) in rw (e, rest) refl
]

-- Where no pair is, nothing is to do.
one_of_each-none : (after : Bool) (s : String) → has_pair after s ≡ false → one_of_each after s ≡ s
unfolding one_of_each has_pair
one_of_each-none after String.[] h = refl
one_of_each-none true (String.◌∷◌ c s) h = elim (Bool-cases (is_backslash c)) [
  | inl e ↦ let absurd : true ≡ false = rw e at h in cc
  | inr e ↦ rw e (ap (String.◌∷◌ c) (one_of_each-none false s (rw e at h)))
]
one_of_each-none false (String.◌∷◌ c s) h =
    ap (String.◌∷◌ c) (one_of_each-none (is_backslash c) s h)

loop_done : (n : ℕ) (s : String) → char_count s ≤ n → squeeze_loop n s ≡ one_of_each false s
unfolding squeeze_loop char_count one_of_each
loop_done zero String.[] le = refl
loop_done zero (String.◌∷◌ c s) le =
    let none_left : suc (char_count s) ≤ 0 = le in absurd (omega arith)
loop_done (suc n) s le = elim (Bool-cases (has_pair false s)) [
  | inl e ↦ rw e (
      loop_done n (replace_pairs false s) (let less = shorter false s e in omega arith)
      ∙ one_of_each-replaced false false s (λ h. h))
  | inr e ↦ rw e (sym (one_of_each-none false s e))
]

no_pair : (after : Bool) (s : String) → has_pair after (one_of_each after s) ≡ false
unfolding one_of_each has_pair
no_pair after String.[] = refl
no_pair true (String.◌∷◌ c s) = elim (Bool-cases (is_backslash c)) [
  | inl e ↦ rw e (no_pair true s)
  | inr e ↦ rw (e, e) (no_pair false s)
]
no_pair false (String.◌∷◌ c s) = no_pair (is_backslash c) s

-- The loop that replaces pairs of backslashes ends, in as many rounds at most as the path has
-- characters, and its result has no two backslashes side by side: of every run of backslashes the
-- first one is left, and every other character is kept.
pub squeeze_exact :
    (path : String)
    → (squeeze path ≡ one_of_each false path) × (has_pair false (squeeze path) ≡ false)
unfolding squeeze
squeeze_exact path =
    let done = loop_done (char_count path) path (omega arith) in
    (done, rw done (no_pair false path))
