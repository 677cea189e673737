-- ===== src/Store/Conflict/Numerals.antt =====
-- Decimal numerals, as `%d` of Go's `fmt` prints them, and that a reader finds the number again.
use Prim.Native.Char.{Char, code}
use xcloud.Prelude.{
  ℕ, zero, suc, ◌+◌, ◌-◌, ◌*◌, ◌/◌, ◌%◌, ◌<◌, String, ◌≡◌, refl, ◌&&◌, arith, ltb, leb, ltb→lt,
  Bool-cases, inl, inr, ap, ◌∙◌, if◌then◌else◌, ◌<>◌,
}

digit : ℕ → Char
digit zero = "0"
digit (suc zero) = "1"
digit (suc (suc zero)) = "2"
digit (suc (suc (suc zero))) = "3"
digit (suc (suc (suc (suc zero)))) = "4"
digit (suc (suc (suc (suc (suc zero))))) = "5"
digit (suc (suc (suc (suc (suc (suc zero)))))) = "6"
digit (suc (suc (suc (suc (suc (suc (suc zero))))))) = "7"
digit (suc (suc (suc (suc (suc (suc (suc (suc zero)))))))) = "8"
digit (suc (suc (suc (suc (suc (suc (suc (suc (suc _))))))))) = "9"

-- The digits of `n` in front of a text.
digits : ℕ → ℕ → String → String
unfolding digit
digits zero n rest = rest
digits (suc fuel) n rest =
    let more = digits fuel (n / 10) (String.◌∷◌ (digit (n % 10)) rest) in
    if ltb n 10 then String.◌∷◌ (digit n) rest else more

unfoldable pub itoa : ℕ → String
unfolding digits
itoa n = digits (n + 1) n ""

-- The number in front of a text, behind the digits that stand for `n`.
abbrev pub read_number : ℕ → String → ℕ
read_number n String.[] = n
read_number n (String.◌∷◌ c s) =
    let more = read_number (n * 10 + (code c - 48)) s in
    if leb 48 (code c) && leb (code c) 57 then more else n

code-digit : (n : ℕ) → n < 10 → code (digit n) ≡ 48 + n
unfolding digit
code-digit zero h = refl
code-digit (suc zero) h = refl
code-digit (suc (suc zero)) h = refl
code-digit (suc (suc (suc zero))) h = refl
code-digit (suc (suc (suc (suc zero)))) h = refl
code-digit (suc (suc (suc (suc (suc zero))))) h = refl
code-digit (suc (suc (suc (suc (suc (suc zero)))))) h = refl
code-digit (suc (suc (suc (suc (suc (suc (suc zero))))))) h = refl
code-digit (suc (suc (suc (suc (suc (suc (suc (suc zero)))))))) h = refl
code-digit (suc (suc (suc (suc (suc (suc (suc (suc (suc zero))))))))) h = refl
code-digit (suc (suc (suc (suc (suc (suc (suc (suc (suc (suc n)))))))))) h = absurd (omega arith)

read-digit :
    (m d : ℕ) (s : String)
    → d < 10
    → read_number m (String.◌∷◌ (digit d) s) ≡ read_number (m * 10 + d) s
read-digit m d s h =
    let e : m * 10 + (48 + d - 48) ≡ m * 10 + d = omega arith in
    rw (code-digit d h) (rw e (ground arith))

read-digits :
    (fuel n : ℕ) (rest : String)
    → n < fuel
    → read_number 0 (digits fuel n rest) ≡ read_number n rest
unfolding digits
read-digits zero n rest h = absurd (omega arith)
read-digits (suc fuel) n rest h = elim (Bool-cases (ltb n 10)) [
  | inl small ↦
      let e : 0 * 10 + n ≡ n = omega arith in
      rw small (read-digit 0 n rest (ltb→lt n 10 small) ∙ ap (λ k. read_number k rest) e)
  | inr large ↦ rw large (
      read-digits fuel (n / 10) (String.◌∷◌ (digit (n % 10)) rest) (ground arith)
      ∙ read-digit (n / 10) (n % 10) rest (omega arith)
      ∙ ap (λ k. read_number k rest) (omega arith))
]

digits-append : (fuel n : ℕ) (a b : String) → digits fuel n a <> b ≡ digits fuel n (a <> b)
unfolding digits ◌<>◌
digits-append zero n a b = refl
digits-append (suc fuel) n a b =
    ground (arith, digits-append fuel (n / 10) (String.◌∷◌ (digit (n % 10)) a) b)

-- A numeral in front of a text is read back, if no digit follows it.
pub read-itoa : (n : ℕ) (s : String) → read_number 0 (itoa n <> s) ≡ read_number n s
unfolding itoa
read-itoa n s =
    rw (digits-append (n + 1) n "" s) (unfold ◌<>◌ in read-digits (n + 1) n s (omega arith))
