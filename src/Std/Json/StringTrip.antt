-- ===== src/Std/Json/StringTrip.antt =====
-- A string that `Marshal` has escaped is scanned back.
use Prim.Native.Char.{char}
use golang_fin.Prelude.{
  ℕ, zero, suc, ◌+◌, ◌<◌, ◌*◌, String, Char, code, Bool, true, false, ◌&&◌, ◌||◌, ◌≡◌, refl, sym,
  ap, ◌∙◌, none, some, Option, List, ltb, ◌==◌, ◌⧺◌, ◌/◌, ◌%◌, if◌then◌else◌, arith, inl, inr,
  Bool-cases, subst, snoc-append,
}
use text.Mathlib.TextLemmas.{cons-append, nil-append, append-nil}
use text.Mathlib.TextEquality.{Char-path}
use golang_fin.Std.Strings.{char_at}
use golang_fin.Std.Json.Scan.{
  Purpose, Frame, in_string, State, at, string_done, snoc, unit_read, hex_value, char_of,
}
use golang_fin.Std.Json.Step.{step, step_string, step_escape, step_hex, hex_step, run}
use golang_fin.Std.Json.Print.{escape_char, escape, hex_escape, put, hex_char}

-- A test of all numbers below one
abbrev all_below : ℕ → (ℕ → Bool) → Bool
all_below zero p = true
all_below (suc n) p = p n && all_below n p

all_below-at : (n : ℕ) (p : ℕ → Bool) (k : ℕ) → all_below n p ≡ true → k < n → p k ≡ true
all_below-at zero p k h l = absurd (omega (arith, l))
all_below-at (suc n) p k h l = elim (Bool-cases (k == n)) [
  | inl q ↦ subst (λ (i : ℕ). p i ≡ true) {x = n} (ground (arith, q)) (ground (arith, h))
  | inr q ↦ all_below-at n p k (ground (arith, h)) (ground (arith, q, l))
]

pub run-append : (state : State) (p s : String) → run state (p ⧺ s) ≡ run (run state p) s
unfolding run
run-append state String.[] s = ap (run state) (nil-append s)
run-append state (String.◌∷◌ ch p) s = rw (cons-append ch p s) (run-append (step ch state) p s)

-- The digits of a base of 16 are read back.
is_back : Option ℕ → ℕ → Bool
is_back none k = false
is_back (some d) k = d == k

is_back-some : (o : Option ℕ) (k : ℕ) → is_back o k ≡ true → o ≡ some k
unfolding is_back
is_back-some none k h = ground (arith, h)
is_back-some (some d) k h = ground (arith, h)

hex_back : (k : ℕ) → k < 16 → hex_value (code (hex_char k)) ≡ some k
unfolding hex_value char_at is_back
hex_back k l =
    is_back-some _ k (all_below-at 16 (λ i. is_back (hex_value (code (hex_char i))) i) k refl l)

-- A number below 128 is that of its character.
code-char_of : (n : ℕ) → n < 128 → code (char_of n) ≡ n
unfolding char_of
code-char_of n l = ground (arith, all_below-at 128 (λ i. code (char_of i) == i) n refl l)

-- A property of both branches
branch :
    {A : Type 0} (P : A → Type 0) (b : Bool) (x y : A)
    → (b ≡ true → P x)
    → (b ≡ false → P y)
    → P (if b then x else y)
branch P true x y f g = f refl
branch P false x y f g = g refl

module _ (purpose : Purpose) (stack : List Frame) where
  abbrev reading : String → State
  reading s = at (in_string purpose none s) stack

  hex_step-some :
      (ch : Char) (s : String) (left v d : ℕ)
      → hex_value (code ch) ≡ some d
      → step_hex ch purpose none s left v stack ≡ hex_step purpose none s left (v * 16 + d) stack
  unfolding step_hex
  hex_step-some ch s left v d q = rw (step_hex, q) refl

  run_hex :
      (s rest : String) (high low : Char) (a b : ℕ)
      → hex_value (code high) ≡ some a
      → hex_value (code low) ≡ some b
      → run (reading s) (put "\\u00" (String.◌∷◌ high (String.◌∷◌ low rest)))
        ≡ run (at (unit_read purpose none s ((0 * 16 + a) * 16 + b)) stack) rest
  unfolding run step step_string step_escape hex_value step_hex
  run_hex s rest high low a b ha hb =
      run-append (reading s) "\\u00" (String.◌∷◌ high (String.◌∷◌ low rest))
      ∙ ap (λ st. run (step low st) rest) (hex_step-some high s 1 0 a ha)
      ∙ ap (λ st. run st rest) (hex_step-some low s 0 (0 * 16 + a) b hb)

  -- The short form of a character
  run_escaped :
      (s rest e : String) (d ch : Char)
      → run (reading s) e ≡ reading (snoc s d)
      → code d ≡ code ch
      → run (reading s) (put e rest) ≡ run (reading (snoc s ch)) rest
  run_escaped s rest e d ch h q =
      run-append (reading s) e rest
      ∙ ap (λ st. run st rest) h
      ∙ ap (λ c. run (reading (snoc s c)) rest) (Char-path d ch q)

  run-hex_escape :
      (s rest : String) (ch : Char)
      → code ch < 128
      → run (reading s) (hex_escape (code ch) rest) ≡ run (reading (snoc s ch)) rest
  run-hex_escape s rest ch l =
      run_hex s rest (hex_char (code ch / 16)) (hex_char (code ch % 16)) (code ch / 16)
        (code ch % 16) (hex_back (code ch / 16) (omega (arith, l)))
        (hex_back (code ch % 16) (omega arith))
      ∙ ap (λ n. run (at (unit_read purpose none s n) stack) rest)
          {x = (0 * 16 + code ch / 16) * 16 + code ch % 16} {y = code ch} (omega arith)
      ∙ ap (λ m. run (at m stack) rest) (unit_read_low s (code ch) l)
      ∙ ap (λ c. run (reading (snoc s c)) rest) (Char-path _ ch (code-char_of (code ch) l))
    where
      unit_read_low :
          (t : String) (n : ℕ)
          → n < 128
          → unit_read purpose none t n ≡ in_string purpose none (snoc t (char_of n))
      unit_read_low t n below = ground (arith, below)

  -- A character that stands for itself
  pub run_plain :
      (s rest : String) (ch : Char)
      → (code ch == b'"') ≡ false
      → (code ch == 0x5c) ≡ false
      → ltb (code ch) 0x20 ≡ false
      → run (reading s) (String.◌∷◌ ch rest) ≡ run (reading (snoc s ch)) rest
  unfolding run step step_string
  run_plain s rest ch q1 q2 q3 = ap (λ st. run st rest) (rw (step_string, q1, q2, q3) refl)

  run-escape_char :
      (s rest : String) (ch : Char)
      → run (reading s) (escape_char ch rest) ≡ run (reading (snoc s ch)) rest
  unfolding escape_char step_escape char_of run step step_string step_hex hex_value
  run-escape_char s rest ch =
      branch P (c == b'"') _ _ (λ q. run_escaped s rest "\\\"" "\"" ch refl (ground (arith, q)))
        λ q1.
          branch P (c == 0x5c) _ _ (λ q. run_escaped s rest "\\\\" "\\" ch refl (ground (arith, q)))
            λ q2.
              branch P (c == 0x08) _ _
                (λ q. run_escaped s rest "\\b" (char 0x08 tt) ch refl (ground (arith, q)))
                λ _.
                  branch P (c == 0x0c) _ _
                    (λ q. run_escaped s rest "\\f" (char 0x0c tt) ch refl (ground (arith, q)))
                    λ _.
                      branch P (c == 0x0a) _ _
                        (λ q. run_escaped s rest "\\n" (char 0x0a tt) ch refl (ground (arith, q)))
                        λ _.
                          branch P (c == 0x0d) _ _
                            (λ q.
                              run_escaped s rest "\\r" (char 0x0d tt) ch refl (ground (arith, q)))
                            λ _.
                              branch P (c == 0x09) _ _
                                (λ q.
                                  run_escaped s rest "\\t" (char 0x09 tt) ch refl
                                    (ground (arith, q)))
                                λ _.
                                  branch P (ltb c 0x20) _ _
                                    (λ q. run-hex_escape s rest ch (ground (arith, q)))
                                    λ q8.
                                      branch P (c == b'<' || c == b'>' || c == b'&') _ _
                                        (λ q. run-hex_escape s rest ch (ground (arith, q)))
                                        λ _.
                                          branch P (c == 0x2028) _ _
                                            (λ q.
                                              run_escaped s rest "\\u2028" (char 0x2028 tt) ch refl
                                                (ground (arith, q)))
                                            λ _.
                                              branch P (c == 0x2029) _ _
                                                (λ q.
                                                  run_escaped s rest "\\u2029" (char 0x2029 tt) ch
                                                    refl (ground (arith, q)))
                                                λ _. run_plain s rest ch q1 q2 q8
    where
      c : ℕ
      c = code ch

      P : String → Type 0
      P t = run (reading s) t ≡ run (reading (snoc s ch)) rest

  -- A string from behind its first quotation mark on
  pub run_string :
      (t s rest : String)
      → run (reading s) (escape t (String.◌∷◌ "\"" rest))
        ≡ run (string_done purpose (s ⧺ t) stack) rest
  unfolding escape run step step_string
  run_string String.[] s rest =
      ap (λ u. run (string_done purpose u stack) rest) (sym (append-nil s))
  run_string (String.◌∷◌ ch t) s rest =
      run-escape_char s (escape t (String.◌∷◌ "\"" rest)) ch
      ∙ run_string t (snoc s ch) rest
      ∙ ap (λ u. run (string_done purpose u stack) rest) (snoc-append s ch t)
