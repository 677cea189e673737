-- ===== src/Store/Keys/Injective.antt =====
-- internal/server/store.go: when two keys are the same.
use Prim.Native.Char.{Char, code, nul}
use text.Mathlib.TextLemmas.{cons-eq-cons}
use mathlib.Core.Path.{ap₂}
use xcloud.Prelude.{String, ◌≡◌, refl, sym, ap, false, contains_char, arith}
use xcloud.Store.Keys.{join_nul, file_key}

abbrev pub NulFree : String → Type 0
NulFree s = contains_char 0 s ≡ false

NulFree-tail : (c : Char) (s : String) → NulFree (String.◌∷◌ c s) → NulFree s
unfolding contains_char
NulFree-tail c s h = ground arith

not_nul : (c : Char) (s : String) → NulFree (String.◌∷◌ c s) → c ≡ nul → ⊥
unfolding contains_char
not_nul c s h e = ground (arith, ap code e)

-- A text in front of the first NUL determines both parts.
join_nul_inj :
    (a b s t : String) → NulFree a → NulFree b → join_nul a s ≡ join_nul b t → (a ≡ b) × (s ≡ t)
unfolding join_nul
join_nul_inj String.[] String.[] s t ha hb e = (refl, (cons-eq-cons.0 e).1)
join_nul_inj String.[] (String.◌∷◌ d b) s t ha hb e =
    absurd (not_nul d b hb (sym (cons-eq-cons.0 e).0))
join_nul_inj (String.◌∷◌ c a) String.[] s t ha hb e = absurd (not_nul c a ha (cons-eq-cons.0 e).0)
join_nul_inj (String.◌∷◌ c a) (String.◌∷◌ d b) s t ha hb e =
    let (head, tail) = cons-eq-cons.0 e in
    let (rest, last) = join_nul_inj a b s t (NulFree-tail c a ha) (NulFree-tail d b hb) tail in
    (ap₂ String.◌∷◌ head rest, last)

-- Two file keys whose account and space hold no NUL are the same only for the same account, space
-- and path.
pub file_key_inj :
    (a b s t p q : String)
    → NulFree a
    → NulFree b
    → NulFree s
    → NulFree t
    → file_key a s p ≡ file_key b t q
    → (a ≡ b) × (s ≡ t) × (p ≡ q)
unfolding file_key
file_key_inj a b s t p q ha hb hs ht e =
    let (accounts, rest) = join_nul_inj a b (join_nul s p) (join_nul t q) ha hb e in
    let (spaces, paths) = join_nul_inj s t p q hs ht rest in (accounts, spaces, paths)

join_nul_cancel : (a s t : String) → join_nul a s ≡ join_nul a t → s ≡ t
unfolding join_nul
join_nul_cancel String.[] s t e = (cons-eq-cons.0 e).1
join_nul_cancel (String.◌∷◌ c a) s t e = join_nul_cancel a s t (cons-eq-cons.0 e).1

-- Two paths of one space have different keys.
pub file_key-path_inj : (a s p q : String) → file_key a s p ≡ file_key a s q → p ≡ q
unfolding file_key
file_key-path_inj a s p q e =
    join_nul_cancel s p q (join_nul_cancel a (join_nul s p) (join_nul s q) e)

-- With a NUL in a space id the keys of two spaces of one account meet.
pub file_key_meets :
    (account_id space_id mid path : String)
    → file_key account_id (join_nul space_id mid) path
      ≡ file_key account_id space_id (join_nul mid path)
unfolding file_key
file_key_meets a s m p = ap (join_nul a) (assoc s m p)
  where
    assoc : (s m p : String) → join_nul (join_nul s m) p ≡ join_nul s (join_nul m p)
    assoc String.[] m p = refl
    assoc (String.◌∷◌ c s) m p = ap (String.◌∷◌ c) (assoc s m p)
