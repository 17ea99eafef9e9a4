-- ===== src/Std/Json/Step.antt =====
-- Package encoding/json: the steps of the scanner, and the scan of a text.
use Prim.Native.Char.{char}
use golang_fin.Prelude.{
  ℕ, zero, suc, ◌+◌, ◌*◌, String, Char, code, true, false, ◌||◌, Option, none, some, List, [], ◌∷◌,
  ltb, ◌==◌, if◌then◌else◌,
}
use golang_fin.Std.Json.{Json, null, boolean, number, array, object, no_items, no_members}
use golang_fin.Std.Json.Scan.{
  NumState, minus, leading_zero, digits, Purpose, as_value, as_key, Frame, in_array, in_object,
  value, value_or_end, key, key_or_end, colon, in_string, in_escape, in_hex, in_literal, in_number,
  after_item, after_member, ended, State, refused, at, complete, string_done, next_number, may_end,
  snoc, flush, unit_read, hex_value, is_space, is_digit,
}

-- The first character of a value
unfoldable pub step_value : Char → List Frame → State
step_value ch stack =
    let c = code ch in
    if c == b'"'
    then at (in_string as_value none "") stack
    else if c == b'{'
    then at key_or_end stack
    else if c == b'['
    then at value_or_end stack
    else if c == b't'
    then at (in_literal "rue" (boolean true)) stack
    else if c == b'f'
    then at (in_literal "alse" (boolean false)) stack
    else if c == b'n'
    then at (in_literal "ull" null) stack
    else if c == b'-'
    then at (in_number minus (snoc "" ch)) stack
    else if c == b'0'
    then at (in_number leading_zero (snoc "" ch)) stack
    else if is_digit c
    then at (in_number digits (snoc "" ch)) stack
    else refused

-- A character after a complete value
unfoldable pub step_end : Char → State → State
step_end ch (at (ended j) stack) = if is_space (code ch) then at (ended j) stack else refused
step_end ch (at (after_item js) stack) =
    if is_space (code ch)
    then at (after_item js) stack
    else if code ch == b','
    then at value (in_array js ∷ stack)
    else if code ch == b']'
    then complete (array js) stack
    else refused
step_end ch (at (after_member ms) stack) =
    if is_space (code ch)
    then at (after_member ms) stack
    else if code ch == b','
    then at (key ms) stack
    else if code ch == b'}'
    then complete (object ms) stack
    else refused
step_end ch _ = refused

abbrev ended_number : Char → NumState → String → List Frame → State
ended_number ch st s stack = if may_end st then step_end ch (complete (number s) stack) else refused

unfoldable pub step_number : Char → NumState → String → List Frame → State
step_number ch st s stack = elim (next_number st (code ch)) [
  | some st' ↦ at (in_number st' (snoc s ch)) stack
  | none ↦ ended_number ch st s stack
]

unfoldable pub step_string : Char → Purpose → Option ℕ → String → List Frame → State
step_string ch purpose high s stack =
    if code ch == b'"'
    then string_done purpose (flush high s) stack
    else if code ch == 0x5c
    then at (in_escape purpose high s) stack
    else if ltb (code ch) 0x20
    then refused
    else at (in_string purpose none (snoc (flush high s) ch)) stack

-- The character after a backslash
unfoldable pub step_escape : Char → Purpose → Option ℕ → String → List Frame → State
step_escape ch purpose high s stack =
    let c = code ch in
    let plain = λ (d : Char). at (in_string purpose none (snoc (flush high s) d)) stack in
    if c == b'"' || c == 0x5c || c == b'/'
    then plain ch
    else if c == b'b'
    then plain (char 0x08 tt)
    else if c == b'f'
    then plain (char 0x0c tt)
    else if c == b'n'
    then plain (char 0x0a tt)
    else if c == b'r'
    then plain (char 0x0d tt)
    else if c == b't'
    then plain (char 0x09 tt)
    else if c == b'u'
    then at (in_hex purpose high s 3 0) stack
    else refused

-- A digit of \\u, with the number of those that follow it
abbrev pub hex_step : Purpose → Option ℕ → String → ℕ → ℕ → List Frame → State
hex_step purpose high s zero v stack = at (unit_read purpose high s v) stack
hex_step purpose high s (suc left) v stack = at (in_hex purpose high s left v) stack

unfoldable pub step_hex : Char → Purpose → Option ℕ → String → ℕ → ℕ → List Frame → State
step_hex ch purpose high s left v stack = elim (hex_value (code ch)) [
  | none ↦ refused
  | some d ↦ hex_step purpose high s left (v * 16 + d) stack
]

unfoldable pub step_literal : Char → String → Json → List Frame → State
step_literal ch String.[] j stack = refused
step_literal ch (String.◌∷◌ d String.[]) j stack =
    if code ch == code d then complete j stack else refused
step_literal ch (String.◌∷◌ d (String.◌∷◌ d' rest)) j stack =
    if code ch == code d then at (in_literal (String.◌∷◌ d' rest) j) stack else refused

unfoldable pub step : Char → State → State
step ch refused = refused
step ch (at value stack) = if is_space (code ch) then at value stack else step_value ch stack
step ch (at value_or_end stack) =
    if is_space (code ch)
    then at value_or_end stack
    else if code ch == b']'
    then complete (array no_items) stack
    else step_value ch (in_array no_items ∷ stack)
step ch (at (key ms) stack) =
    if is_space (code ch)
    then at (key ms) stack
    else if code ch == b'"'
    then at (in_string (as_key ms) none "") stack
    else refused
step ch (at key_or_end stack) =
    if is_space (code ch)
    then at key_or_end stack
    else if code ch == b'"'
    then at (in_string (as_key no_members) none "") stack
    else if code ch == b'}'
    then complete (object no_members) stack
    else refused
step ch (at (colon ms k) stack) =
    if is_space (code ch)
    then at (colon ms k) stack
    else if code ch == b':'
    then at value (in_object ms k ∷ stack)
    else refused
step ch (at (in_string purpose high s) stack) = step_string ch purpose high s stack
step ch (at (in_escape purpose high s) stack) = step_escape ch purpose high s stack
step ch (at (in_hex purpose high s left v) stack) = step_hex ch purpose high s left v stack
step ch (at (in_literal rest j) stack) = step_literal ch rest j stack
step ch (at (in_number st s) stack) = step_number ch st s stack
step ch (at (after_item js) stack) = step_end ch (at (after_item js) stack)
step ch (at (after_member ms) stack) = step_end ch (at (after_member ms) stack)
step ch (at (ended j) stack) = step_end ch (at (ended j) stack)

unfoldable pub run : State → String → State
run state String.[] = state
run state (String.◌∷◌ ch s) = run (step ch state) s

abbrev pub result : State → Option Json
result (at (ended j) stack) = some j
result _ = none

-- The scanner behind a text, whose end is scanned as a space
abbrev pub run_end : State → String → State
run_end state s = step " " (run state s)

unfoldable pub scan : String → Option Json
unfolding run step
scan s = result (run_end (at value []) s)
