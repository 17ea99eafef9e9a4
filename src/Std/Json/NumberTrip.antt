-- ===== src/Std/Json/NumberTrip.antt =====
-- A number is scanned to the text that it is written as.
use golang_fin.Prelude.{
  ℕ, String, Char, code, Bool, true, false, ◌||◌, ◌≡◌, refl, sym, ap, ◌∙◌, none, some, Option, List,
  [], ◌∷◌, ◌==◌, ◌⧺◌, if◌then◌else◌, arith, inl, inr, Option-cases, snoc-append,
}
use package.text.Mathlib.TextLemmas.{cons-append, nil-append, append-nil}
use golang_fin.Std.Json.{Json, number, no_items}
use golang_fin.Std.Json.Scan.{
  NumState, minus, leading_zero, digits, dot, dot_digits, exp, exp_sign, exp_digits, Frame,
  in_array, in_object, value, value_or_end, in_number, at, complete, next_number, may_end, snoc,
  is_digit,
}
use golang_fin.Std.Json.Step.{step, step_value, step_number, step_end, run, run_end}

-- What a text starts with that may follow a value
abbrev pub is_delim : ℕ → Bool
is_delim c = c == b',' || c == b']' || c == b'}' || c == b' '

abbrev pub Delimited : String → Type 0
Delimited String.[] = Unit
Delimited (String.◌∷◌ ch s) = is_delim (code ch) ≡ true

-- The numbers of JSON, without the scanner's stack
unfoldable pub num_run : NumState → String → Option NumState
num_run st String.[] = some st
num_run st (String.◌∷◌ ch s) = elim (next_number st (code ch)) [
  | none ↦ none
  | some st' ↦ num_run st' s
]

unfoldable pub num_start : ℕ → Option NumState
num_start c =
    if c == b'-'
    then some minus
    else if c == b'0'
    then some leading_zero
    else if is_digit c
    then some digits
    else none

abbrev pub ends_well : Option NumState → Bool
ends_well none = false
ends_well (some st) = may_end st

abbrev goes_on : Option NumState → String → Bool
goes_on none s = false
goes_on (some st) s = ends_well (num_run st s)

unfoldable pub is_numeral : String → Bool
is_numeral String.[] = false
is_numeral (String.◌∷◌ ch s) = goes_on (num_start (code ch)) s

num_start-value :
    (ch : Char) (stack : List Frame) (st : NumState)
    → num_start (code ch) ≡ some st
    → step ch (at value stack) ≡ at (in_number st (snoc "" ch)) stack
unfolding num_start step step_value
num_start-value ch stack st h = ground (arith, h)

delim_ends :
    (st : NumState) (c : ℕ) → may_end st ≡ true → is_delim c ≡ true → next_number st c ≡ none
unfolding next_number
delim_ends leading_zero c m d = ground (arith, d)
delim_ends digits c m d = ground (arith, d)
delim_ends dot_digits c m d = ground (arith, d)
delim_ends exp_digits c m d = ground (arith, d)
delim_ends minus c m d = ground (arith, m)
delim_ends dot c m d = ground (arith, m)
delim_ends exp c m d = ground (arith, m)
delim_ends exp_sign c m d = ground (arith, m)

-- A number opens an array as any value does.
pub number_opens :
    (ch : Char) (s : String) (stack : List Frame)
    → is_numeral (String.◌∷◌ ch s) ≡ true
    → step ch (at value_or_end stack) ≡ step ch (at value (in_array no_items ∷ stack))
unfolding is_numeral num_start step
number_opens ch s stack h = ground (arith, h)

-- A complete value is followed in the same way whatever it stands in.
step-complete :
    (ch : Char) (j : Json) (stack : List Frame)
    → step ch (complete j stack) ≡ step_end ch (complete j stack)
unfolding step
step-complete ch j [] = refl
step-complete ch j (in_array js ∷ stack) = refl
step-complete ch j (in_object ms k ∷ stack) = refl

module _ (stack : List Frame) where
  step-number_on :
      (ch : Char) (st st' : NumState) (acc : String)
      → next_number st (code ch) ≡ some st'
      → step ch (at (in_number st acc) stack) ≡ at (in_number st' (snoc acc ch)) stack
  unfolding step step_number
  step-number_on ch st st' acc h = rw (step_number, h) refl

  step-number_off :
      (ch : Char) (st : NumState) (acc : String)
      → may_end st ≡ true
      → is_delim (code ch) ≡ true
      → step ch (at (in_number st acc) stack) ≡ step ch (complete (number acc) stack)
  unfolding step step_number
  step-number_off ch st acc m d =
      rw (step_number, delim_ends st (code ch) m d, m) (sym (step-complete ch (number acc) stack))

  run_rest :
      (st : NumState) (s acc rest : String)
      → ends_well (num_run st s) ≡ true
      → Delimited rest
      → run_end (at (in_number st acc) stack) (s ⧺ rest)
        ≡ run_end (complete (number (acc ⧺ s)) stack) rest
  unfolding run num_run
  run_rest st String.[] acc String.[] m d =
      rw (nil-append "", append-nil acc) (step-number_off " " st acc m refl)
  run_rest st String.[] acc (String.◌∷◌ ch rest) m d =
      rw (nil-append (String.◌∷◌ ch rest), append-nil acc)
        (ap (λ state. run_end state rest) (step-number_off ch st acc m d))
  run_rest st (String.◌∷◌ ch s) acc rest m d = elim (Option-cases (next_number st (code ch))) [
    | inl q ↦ ground (arith, q, m)
    | inr (st', q) ↦ rw (cons-append ch s rest) (
        ap (λ state. run_end state (s ⧺ rest)) (step-number_on ch st st' acc q)
        ∙ run_rest st' s (snoc acc ch) rest (ground (arith, q, m)) d
        ∙ ap (λ u. run_end (complete (number u) stack) rest) (snoc-append acc ch s))
  ]

  -- A number in front of what may follow a value
  pub run_number :
      (s rest : String)
      → is_numeral s ≡ true
      → Delimited rest
      → run_end (at value stack) (s ⧺ rest) ≡ run_end (complete (number s) stack) rest
  unfolding run is_numeral
  run_number String.[] rest m d = ground (arith, m)
  run_number (String.◌∷◌ ch s) rest m d = elim (Option-cases (num_start (code ch))) [
    | inl q ↦ ground (arith, q, m)
    | inr (st, q) ↦ rw (cons-append ch s rest) (
        ap (λ state. run_end state (s ⧺ rest)) (num_start-value ch stack st q)
        ∙ run_rest st s (snoc "" ch) rest (ground (arith, q, m)) d
        ∙ ap (λ u. run_end (complete (number u) stack) rest)
            (snoc-append "" ch s ∙ nil-append (String.◌∷◌ ch s)))
  ]
