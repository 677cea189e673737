-- ===== src/Store/Conflict/Fresh.antt =====
-- internal/server/store.go: the path that nextConflictPathLocked picks is in use nowhere, and its
-- loop ends.
use text.Mathlib.TextLemmas.{cons-eq-cons}
use xcloud.Prelude.{
  ℕ, zero, suc, ◌+◌, ◌≤◌, ◌<◌, String, ◌≡◌, ◌≢◌, refl, sym, ap, ◌∙◌, inl, inr, Bool, true, false,
  not, ◌||◌, List, [], ◌∷◌, arith, if◌then◌else◌, ◌==◌, eq_iff, leb, ◌<>◌, any, keep, length, map,
  Dict, Bool-cases, length-keep,
}
use xcloud.Model.{FileEntry}
use xcloud.Store.Conflict.{
  candidate, path_exists, search_candidate, next_conflict_path, ext, trim_suffix, safe_device_chars,
}
use xcloud.Store.Conflict.Numerals.{itoa, read_number, read-itoa}

abbrev mem : String → List String → Bool
mem p qs = any (λ q. q == p) qs

abbrev without : String → List String → List String
without p qs = keep (λ q. not (q == p)) qs

length-without :
    (p : String) (qs : List String) → mem p qs ≡ true → length (without p qs) < length qs
unfolding any keep
length-without p [] h = cc
length-without p (q ∷ qs) h =
    ground (arith, length-without p qs, length-keep (λ r. not (r == p)) qs)

mem-without : (p r : String) (qs : List String) → r ≢ p → mem r (without p qs) ≡ mem r qs
unfolding any keep
mem-without p r [] h = refl
mem-without p r (q ∷ qs) h = ground (arith, mem-without p r qs h, eq_iff q p, eq_iff q r)

-- With one round for each text in use the search ends at a candidate that is not in use.
module _ (c : ℕ → String) (c_inj : (i j : ℕ) → c i ≡ c j → 1 ≤ i → 1 ≤ j → i ≡ j)
    (taken : ℕ → Bool) where
  search_free :
      (fuel i : ℕ) (qs : List String)
      → 1 ≤ i
      → length qs ≤ fuel
      → ((j : ℕ) → i ≤ j → taken j ≡ mem (c j) qs)
      → taken (search_candidate taken fuel i) ≡ false
  unfolding search_candidate
  search_free zero i [] h l same = unfold any in same i (omega arith)
  search_free zero i (q ∷ qs) h l same = absurd (omega arith)
  search_free (suc fuel) i qs h l same = elim (Bool-cases (taken i)) [
    | inr free ↦ rw free free
    | inl used ↦ rw used (
        search_free fuel (i + 1) (without (c i) qs) (omega arith) (shorter used)
          (λ j le. rest j le))
  ]
    where
      shorter : taken i ≡ true → length (without (c i) qs) ≤ fuel
      shorter used = omega (arith, length-without (c i) qs (sym (same i (omega arith)) ∙ used))

      rest : (j : ℕ) → i + 1 ≤ j → taken j ≡ mem (c j) (without (c i) qs)
      rest j le =
          same j (omega arith)
          ∙ sym (
              mem-without (c i) (c j) qs
                λ e. omega (arith, c_inj j i e (omega arith) (omega arith)))

append_cancel : (s a b : String) → s <> a ≡ s <> b → a ≡ b
unfolding ◌<>◌
append_cancel String.[] a b e = e
append_cancel (String.◌∷◌ c s) a b e = append_cancel s a b (cons-eq-cons.0 e).1

-- What follows "(conflict " in a candidate.
body : String → ℕ → String
body suffix i = if leb 2 i then itoa i <> " from " <> suffix else "from " <> suffix

candidate-body :
    (stem suffix : String) (i : ℕ)
    → candidate stem suffix i ≡ stem <> " (conflict " <> body suffix i
unfolding candidate body
candidate-body stem suffix i = elim (Bool-cases (leb 2 i)) [
  | inl e ↦ rw (e, candidate)
  | inr e ↦ rw (e, candidate)
]

read-body : (suffix : String) (i : ℕ) → read_number 0 (body suffix i) ≡ (if leb 2 i then i else 0)
unfolding body ◌<>◌
read-body suffix i = elim (Bool-cases (leb 2 i)) [
  | inl e ↦ rw (e, body) (read-itoa i (" from " <> suffix))
  | inr e ↦ rw (e, body)
]

candidate_inj :
    (stem suffix : String) (i j : ℕ)
    → candidate stem suffix i ≡ candidate stem suffix j
    → 1 ≤ i
    → 1 ≤ j
    → i ≡ j
candidate_inj stem suffix i j e hi hj = ground (arith, same, read-body suffix i, read-body suffix j)
  where
    split_off : stem <> " (conflict " <> body suffix i ≡ stem <> " (conflict " <> body suffix j
    split_off = sym (candidate-body stem suffix i) ∙ e ∙ candidate-body stem suffix j

    same : read_number 0 (body suffix i) ≡ read_number 0 (body suffix j)
    same = ap (read_number 0) (append_cancel " (conflict " _ _ (append_cancel stem _ _ split_off))

paths : Dict FileEntry → List String
paths files = map (λ (key, entry). entry.path) files

path_exists-mem : (files : Dict FileEntry) (p : String) → path_exists files p ≡ mem p (paths files)
unfolding path_exists any paths
path_exists-mem [] p = refl
path_exists-mem ((key, entry) ∷ files) p = ap (λ b. entry.path == p || b) (path_exists-mem files p)

length-paths : (files : Dict FileEntry) → length (paths files) ≡ length files
unfolding paths
length-paths [] = refl
length-paths (f ∷ files) = ap suc (length-paths files)

-- The path for a conflicting version is the path of no entry of the store, however many earlier
-- candidates are taken: the search over numbered candidates always ends at a free one.
pub next_conflict_path_free :
    (files : Dict FileEntry) (path device_id time : String)
    → path_exists files (next_conflict_path files path device_id time) ≡ false
unfolding next_conflict_path
next_conflict_path_free files path device_id time =
    let stem = trim_suffix path (ext path) in
    let suffix = safe_device_chars device_id <> " at " <> time <> ")" <> ext path in
    search_free (candidate stem suffix) (candidate_inj stem suffix)
      (λ i. path_exists files (candidate stem suffix i)) (length files) 1 (paths files)
      (omega arith) (omega (arith, length-paths files))
      (λ j _. path_exists-mem files (candidate stem suffix j))
