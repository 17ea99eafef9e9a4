-- ===== src/Std/Json/Numerals.antt =====
-- What `Itoa` writes is a number of JSON.
use text.Mathlib.TextLemmas.{cons-append, nil-append}
use golang_fin.Prelude.{
  ℕ, zero, suc, ◌/◌, ◌%◌, ◌<◌, ◌≤◌, String, code, true, false, ◌≡◌, refl, ap, some, arith, ltb, inl,
  inr, Bool-cases, ◌⧺◌,
}
use golang_fin.Prelude.Int.{ℤ, pos, negsuc}
use golang_fin.Std.Strconv.{digit, format_digits, format_uint, itoa}
use golang_fin.Std.Strconv.RoundTrip.{code-digit}
use golang_fin.Std.Json.Scan.{digits, minus, next_number}
use golang_fin.Std.Json.NumberTrip.{is_numeral, num_run, num_start, ends_well}

digit_next : (d : ℕ) → d < 10 → next_number digits (code (digit d)) ≡ some digits
unfolding next_number
digit_next d l = ground (arith, code-digit d l)

digit_start : (d : ℕ) → 0 < d → d < 10 → num_start (code (digit d)) ≡ some digits
unfolding num_start
digit_start d p l = ground (arith, code-digit d l)

digit_minus : (d : ℕ) → 0 < d → d < 10 → next_number minus (code (digit d)) ≡ some digits
unfolding next_number
digit_minus d p l = ground (arith, code-digit d l)

-- A text of a digit that is not 0, and digits
abbrev Shape : String → Type 0
Shape s =
    (d : ℕ) × (rest : String) × (s ≡ String.◌∷◌ (digit d) rest)
    × (0 < d)
    × (d < 10)
    × (num_run digits rest ≡ some digits)

digits_more :
    (d : ℕ) (out : String)
    → d < 10
    → num_run digits out ≡ some digits
    → num_run digits (String.◌∷◌ (digit d) out) ≡ some digits
unfolding num_run
digits_more d out l h = rw (num_run, digit_next d l) h

format_digits-Shape :
    (fuel n : ℕ) (out : String)
    → 0 < n
    → n < fuel
    → num_run digits out ≡ some digits
    → Shape (format_digits fuel n out)
unfolding format_digits
format_digits-Shape zero n out p l h = absurd (omega (arith, l))
format_digits-Shape (suc fuel) n out p l h = elim (Bool-cases (ltb n 10)) [
  | inl small ↦ rw small (n % 10, out, refl, omega (arith, p, below n small), omega arith, h)
  | inr large ↦ rw large (
      format_digits-Shape fuel (n / 10) (String.◌∷◌ (digit (n % 10)) out)
        (omega (arith, above n large)) (omega (arith, p, l))
        (digits_more (n % 10) out (omega arith) h))
]
  where
    below : (m : ℕ) → ltb m 10 ≡ true → m < 10
    below m q = ground (arith, q)

    above : (m : ℕ) → ltb m 10 ≡ false → 10 ≤ m
    above m q = ground (arith, q)

start_numeral :
    (d : ℕ) (rest : String)
    → 0 < d
    → d < 10
    → num_run digits rest ≡ some digits
    → is_numeral (String.◌∷◌ (digit d) rest) ≡ true
unfolding is_numeral
start_numeral d rest p l h = rw (is_numeral, digit_start d p l, h) refl

minus_run :
    (d : ℕ) (rest : String)
    → 0 < d
    → d < 10
    → num_run digits rest ≡ some digits
    → num_run minus (String.◌∷◌ (digit d) rest) ≡ some digits
unfolding num_run
minus_run d rest p l h = rw (num_run, digit_minus d p l) h

minus_numeral :
    (d : ℕ) (rest : String)
    → 0 < d
    → d < 10
    → num_run digits rest ≡ some digits
    → is_numeral (String.◌∷◌ "-" (String.◌∷◌ (digit d) rest)) ≡ true
unfolding is_numeral num_start
minus_numeral d rest p l h = ap ends_well (minus_run d rest p l h)

Shape-is_numeral : (s : String) → Shape s → is_numeral s ≡ true
Shape-is_numeral s (d, rest, e, p, l, h) = rw (e) (start_numeral d rest p l h)

Shape-minus : (s : String) → Shape s → is_numeral ("-" ⧺ s) ≡ true
Shape-minus s (d, rest, e, p, l, h) =
    rw (cons-append "-" "" s, nil-append s, e) (minus_numeral d rest p l h)

pub itoa-is_numeral : (z : ℤ) → is_numeral (itoa z) ≡ true
unfolding itoa format_uint is_numeral num_run num_start
itoa-is_numeral (pos zero) = refl
itoa-is_numeral (pos (suc n)) =
    Shape-is_numeral _
      (format_digits-Shape (suc (suc n)) (suc n) "" (omega arith) (omega arith) refl)
itoa-is_numeral (negsuc n) =
    Shape-minus _ (format_digits-Shape (suc (suc n)) (suc n) "" (omega arith) (omega arith) refl)
