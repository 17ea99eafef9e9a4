-- ===== src/Std/Strconv/RoundTrip.antt =====
-- `Atoi` reads back what `Itoa` prints.
use text.Mathlib.TextLemmas.{cons-append, nil-append}
use golang_fin.Prelude.{
  ℕ, zero, suc, ◌⧺◌, ◌+◌, ◌*◌, ◌/◌, ◌%◌, ◌^◌, ◌<◌, ◌≤◌, String, code, ◌≡◌, refl, sym, ◌∙◌, ap, true,
  false, arith, ltb, leb, ◌-◌, ◌==◌, Bool-cases, inl, inr,
}
use golang_fin.Prelude.Int.{ℤ, pos, negsuc, IsInt64}
use golang_fin.Std.Strconv.{
  value, digit, max_uint64, parse_digits, parse_uint, format_digits, format_uint, atoi, itoa,
  signed,
}

pub code-digit : (d : ℕ) → d < 10 → code (digit d) ≡ 48 + d
unfolding digit
code-digit zero h = refl
code-digit (suc zero) h = refl
code-digit (suc (suc zero)) h = refl
code-digit (suc (suc (suc zero))) h = refl
code-digit (suc (suc (suc (suc zero)))) h = refl
code-digit (suc (suc (suc (suc (suc zero))))) h = refl
code-digit (suc (suc (suc (suc (suc (suc zero)))))) h = refl
code-digit (suc (suc (suc (suc (suc (suc (suc zero))))))) h = refl
code-digit (suc (suc (suc (suc (suc (suc (suc (suc zero)))))))) h = refl
code-digit (suc (suc (suc (suc (suc (suc (suc (suc (suc zero))))))))) h = refl
code-digit (suc (suc (suc (suc (suc (suc (suc (suc (suc (suc n)))))))))) h = absurd (omega arith)

-- One digit more.
parse_digits-digit :
    (n d : ℕ) (s : String)
    → d < 10
    → n * 10 + d ≤ max_uint64
    → parse_digits n (String.◌∷◌ (digit d) s) ≡ parse_digits (n * 10 + d) s
unfolding parse_digits
parse_digits-digit n d s h k =
    let low : leb 48 (48 + d) ≡ true = ground arith in
    let high : leb (48 + d) 57 ≡ true = ground arith in
    let same : n * 10 + (48 + d - 48) ≡ n * 10 + d = omega arith in
    let fits : ltb max_uint64 (n * 10 + d) ≡ false = ground arith in
    rw (code-digit d h, low, high, same, fits)

parse_digits-last :
    (n : ℕ) (out : String)
    → n ≤ max_uint64
    → ltb n 10 ≡ true
    → parse_digits 0 (String.◌∷◌ (digit (n % 10)) out) ≡ parse_digits n out
parse_digits-last n out k small =
    let d : n % 10 ≡ n = ground arith in
    rw d (
      parse_digits-digit 0 n out (ground arith) (omega arith)
      ∙ ap (λ (m : ℕ). parse_digits m out) (omega arith))

parse_digits-format :
    (fuel n : ℕ) (out : String)
    → n < fuel
    → n ≤ max_uint64
    → parse_digits 0 (format_digits fuel n out) ≡ parse_digits n out
unfolding format_digits
parse_digits-format zero n out h k = absurd (omega arith)
parse_digits-format (suc fuel) n out h k = elim (Bool-cases (ltb n 10)) [
  | inl small ↦ rw small (parse_digits-last n out k small)
  | inr large ↦ rw large (
      parse_digits-format fuel (n / 10) (String.◌∷◌ (digit (n % 10)) out) (ground arith)
        (omega arith)
      ∙ parse_digits-digit (n / 10) (n % 10) out (omega arith) (omega arith)
      ∙ ap (λ (m : ℕ). parse_digits m out) (omega arith))
]

-- The print begins with a digit.
abbrev BeginsWithDigit : String → Type 0
BeginsWithDigit s = (d : ℕ) × (rest : String) × (s ≡ String.◌∷◌ (digit d) rest) × (d < 10)

format_digits-begins :
    (fuel n : ℕ) (out : String) → BeginsWithDigit (format_digits (suc fuel) n out)
unfolding format_digits
format_digits-begins zero n out = elim (Bool-cases (ltb n 10)) [
  | inl small ↦ (n % 10, out, rw small, omega arith)
  | inr large ↦ (n % 10, out, rw large, omega arith)
]
format_digits-begins (suc fuel) n out = elim (Bool-cases (ltb n 10)) [
  | inl small ↦ (n % 10, out, rw small, omega arith)
  | inr large ↦ rw large (format_digits-begins fuel (n / 10) (String.◌∷◌ (digit (n % 10)) out))
]

parse_uint-digits :
    (d : ℕ) (s : String)
    → parse_uint (String.◌∷◌ (digit d) s) ≡ parse_digits 0 (String.◌∷◌ (digit d) s)
unfolding parse_uint
parse_uint-digits d s = refl

format_uint-begins : (n : ℕ) → BeginsWithDigit (format_uint n)
unfolding format_uint
format_uint-begins n = format_digits-begins n n ""

parse_digits-format_uint : (n : ℕ) → n ≤ max_uint64 → parse_digits 0 (format_uint n) ≡ value n
unfolding format_uint
parse_digits-format_uint n k =
    parse_digits-format (suc n) n "" (omega arith) k ∙ unfold parse_digits in refl

-- An unsigned number of 64 bits is read back from its print.
pub parse_uint-format : (n : ℕ) → n ≤ max_uint64 → parse_uint (format_uint n) ≡ value n
parse_uint-format n k =
    let (d, rest, e, _) = format_uint-begins n in
    rw e (parse_uint-digits d rest ∙ ap (parse_digits 0) (sym e) ∙ parse_digits-format_uint n k)

atoi-digit :
    (d : ℕ) (s : String)
    → d < 10
    → atoi (String.◌∷◌ (digit d) s) ≡ signed false (parse_uint (String.◌∷◌ (digit d) s))
unfolding atoi
atoi-digit d s h =
    let plus : (48 + d == b'+') ≡ false = ground arith in
    let minus : (48 + d == b'-') ≡ false = ground arith in rw (code-digit d h, minus, plus)

atoi-format : (n : ℕ) → atoi (format_uint n) ≡ signed false (parse_uint (format_uint n))
atoi-format n = let (d, rest, e, h) = format_uint-begins n in rw e (atoi-digit d rest h)

signed-pos : (m : ℕ) → m < 2 ^ 63 → signed false (value m) ≡ value (pos m)
signed-pos m k = ground arith

signed-neg : (m : ℕ) → m < 2 ^ 63 → signed true (value (suc m)) ≡ value (negsuc m)
signed-neg m k = ground arith

atoi-minus : (s : String) → atoi ("-" ⧺ s) ≡ signed true (parse_uint s)
unfolding atoi
atoi-minus s = rw (cons-append "-" "" s, nil-append s)

-- `strconv.Atoi` reads an integer of 64 bits back from what `strconv.Itoa` printed.
pub atoi-itoa : (z : ℤ) → IsInt64 z → atoi (itoa z) ≡ value z
unfolding itoa
atoi-itoa (pos n) h =
    atoi-format n
    ∙ ap (signed false) (parse_uint-format n (omega arith))
    ∙ signed-pos n (omega arith)
atoi-itoa (negsuc n) h =
    atoi-minus (format_uint (suc n))
    ∙ ap (signed true) (parse_uint-format (suc n) (omega arith))
    ∙ signed-neg n (omega arith)
