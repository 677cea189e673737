-- ===== src/Prelude/Assoc.antt =====
-- Go's maps with string keys, as association lists. The order of the list stands for the order in
-- which a `range` loop meets the entries.
use Prim.Native.String.{String}
use text.Mathlib.Text.{◌==◌}
use text.Mathlib.TextEquality.{eq_iff}
use text.Mathlib.TextPositions.{eq_refl}
use mathlib.Core.Path.{◌≡◌, refl, ap, ◌∙◌}
use mathlib.Core.Option.{Option, none, some}
use mathlib.Core.List.{List, [], ◌∷◌}
use native.Mathlib.Omega.{arith}
use mathlib.Core.Logic.{◌⊎◌, inl, inr}
use mathlib.Core.Bool.{Bool, false}
use xcloud.Prelude.Tests.{if◌then◌else◌, Bool-cases}
use xcloud.Prelude.Lists.{keep}

abbrev pub Dict {ℓ} : Type ℓ → Type ℓ
Dict V = List (String × V)

-- The value stands in the map, under some key.
abbrev pub Among : {V : Type 0} → V → Dict V → Type 0
Among v [] = ⊥
Among v ((k, w) ∷ m) = (w ≡ v) ⊎ Among v m

module _ {ℓ} {V : Type ℓ} where
  -- m[k]
  unfoldable pub get : String → Dict V → Option V
  get k [] = none
  get k ((j, v) ∷ m) = if j == k then some v else get k m

  -- m[k] = v
  unfoldable pub put : String → V → Dict V → Dict V
  put k v [] = (k, v) ∷ []
  put k v ((j, w) ∷ m) = if j == k then (k, v) ∷ m else (j, w) ∷ put k v m

  pub get-put :
      (k j : String) (v : V) (m : Dict V) → get j (put k v m) ≡ (if k == j then some v else get j m)
  unfolding get put
  get-put k j v [] = refl
  get-put k j v ((i, w) ∷ m) = ground (arith, eq_iff k j, eq_iff i k, eq_iff i j, get-put k j v m)

  pub get-put_self : (k : String) (v : V) (m : Dict V) → get k (put k v m) ≡ some v
  get-put_self k v m = get-put k k v m ∙ ap (λ b. if b then some v else get k m) (eq_refl k)

  -- delete(m, k)
  unfoldable pub erase : String → Dict V → Dict V
  erase k [] = []
  erase k ((j, v) ∷ m) = let rest = erase k m in if j == k then rest else (j, v) ∷ rest

  pub get-erase :
      (k j : String) (m : Dict V) → get j (erase k m) ≡ (if k == j then none else get j m)
  unfolding get erase
  get-erase k j [] = ground arith
  get-erase k j ((i, v) ∷ m) = ground (arith, eq_iff k j, eq_iff i k, eq_iff i j, get-erase k j m)

  -- No key stands twice, as in a map.
  abbrev pub Distinct : Dict V → Type ℓ
  Distinct [] = Unit
  Distinct ((k, v) ∷ m) = (get k m ≡ none) × Distinct m

  pub put-Distinct : (k : String) (v : V) (m : Dict V) → Distinct m → Distinct (put k v m)
  unfolding get put
  put-Distinct k v [] h = (refl, tt)
  put-Distinct k v ((j, w) ∷ m) h = elim (Bool-cases (j == k)) [
    | inl e ↦ rw e (rw ((eq_iff j k).0 e) at h.0, h.1)
    | inr e ↦ rw e (get-put k j v m ∙ other e, put-Distinct k v m h.1)
  ]
    where
      other : (j == k) ≡ false → (if k == j then some v else get j m) ≡ none
      other e = ground (arith, eq_iff j k, eq_iff k j, h.0)

  -- What is found in the entries that pass a test.
  abbrev pub found_if : (String × V → Bool) → String → Option V → Option V
  found_if p k none = none
  found_if p k (some v) = if p (k, v) then some v else none

  pub get-keep :
      (p : String × V → Bool) (k : String) (m : Dict V)
      → Distinct m
      → get k (keep p m) ≡ found_if p k (get k m)
  unfolding get keep
  get-keep p k [] h = refl
  get-keep p k ((j, v) ∷ m) h = elim (Bool-cases (j == k)) [
    | inl e ↦
        let gone : get k m ≡ none = rw ((eq_iff j k).0 e) at h.0 in
        let same = (eq_iff j k).0 e in ground (arith, get-keep p k m h.1, gone, same, e)
    | inr e ↦ ground (arith, get-keep p k m h.1, e)
  ]
