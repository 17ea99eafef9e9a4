-- ===== src/Std/Strconv.antt =====
-- Package strconv: `Atoi`, `Itoa`, and the texts of `NumError`.
pub mod RoundTrip
use golang_fin.Prelude.{
  ℕ, zero, suc, ◌+◌, ◌-◌, ◌*◌, ◌/◌, ◌%◌, ◌^◌, String, Char, code, Bool, true, false, ◌&&◌, ◌≡◌,
  refl, ltb, leb, ◌==◌, ◌⧺◌, if◌then◌else◌,
}
use golang_fin.Prelude.Int.{ℤ, pos, negsuc}

abbrev pub max_uint64 : ℕ
max_uint64 = 2 ^ 64 - 1

-- strconv.ErrSyntax and strconv.ErrRange
pub data NumError : Type 0 where
  syntax range : NumError

pub data Parsed {ℓ} (A : Type ℓ) : Type ℓ where
  value : A → Parsed A
  failed : NumError → Parsed A

abbrev pub is_digit : ℕ → Bool
is_digit c = leb b'0' c && leb c b'9'

-- The loop of `ParseUint` in base 10: overflow is found before the characters that follow it.
unfoldable pub parse_digits : ℕ → String → Parsed ℕ
parse_digits n String.[] = value n
parse_digits n (String.◌∷◌ ch s) =
    let n1 = n * 10 + (code ch - b'0') in
    let rest = parse_digits n1 s in
    if is_digit (code ch) then if ltb max_uint64 n1 then failed range else rest else failed syntax

unfoldable pub parse_uint : String → Parsed ℕ
unfolding parse_digits
parse_uint String.[] = failed syntax
parse_uint (String.◌∷◌ ch s) = parse_digits 0 (String.◌∷◌ ch s)

-- The cut-offs of `ParseInt` at 64 bits.
abbrev pub signed : Bool → Parsed ℕ → Parsed ℤ
signed neg (failed e) = failed e
signed false (value n) = if ltb n (2 ^ 63) then value (pos n) else failed range
signed true (value zero) = value (pos 0)
signed true (value (suc n)) = if ltb n (2 ^ 63) then value (negsuc n) else failed range

-- `strconv.Atoi`: an optional sign, then decimal digits.
unfoldable pub atoi : String → Parsed ℤ
unfolding parse_uint
atoi String.[] = failed syntax
atoi (String.◌∷◌ ch s) =
    if code ch == b'-'
    then signed true (parse_uint s)
    else if code ch == b'+'
    then signed false (parse_uint s)
    else signed false (parse_uint (String.◌∷◌ ch s))

unfoldable pub digit : ℕ → Char
digit zero = "0"
digit (suc zero) = "1"
digit (suc (suc zero)) = "2"
digit (suc (suc (suc zero))) = "3"
digit (suc (suc (suc (suc zero)))) = "4"
digit (suc (suc (suc (suc (suc zero))))) = "5"
digit (suc (suc (suc (suc (suc (suc zero)))))) = "6"
digit (suc (suc (suc (suc (suc (suc (suc zero))))))) = "7"
digit (suc (suc (suc (suc (suc (suc (suc (suc zero)))))))) = "8"
digit _ = "9"

-- Digits from the last to the first, on fuel; `suc n` is enough for `n`.
unfoldable pub format_digits : ℕ → ℕ → String → String
format_digits zero n out = out
format_digits (suc fuel) n out =
    let out' = String.◌∷◌ (digit (n % 10)) out in
    let more = format_digits fuel (n / 10) out' in if ltb n 10 then out' else more

unfoldable pub format_uint : ℕ → String
unfolding format_digits digit
format_uint n = format_digits (suc n) n ""

-- `strconv.Itoa`
unfoldable pub itoa : ℤ → String
unfolding format_uint
itoa (pos n) = format_uint n
itoa (negsuc n) = "-" ⧺ format_uint (suc n)
