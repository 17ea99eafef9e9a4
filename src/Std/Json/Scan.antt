-- ===== src/Std/Json/Scan.antt =====
-- Package encoding/json: the scanner as a state machine over the characters of a text, with a stack
-- of the arrays and objects that are open. It builds the value while it scans. The package refuses a
-- text that is nested more than 10000 deep; that is left out.
use Prim.Native.Nat.{compare, Ordering}
use Prim.Native.Char.{char, IsLt}
use golang_fin.Prelude.{
  ℕ, ◌+◌, ◌-◌, ◌*◌, String, Char, Bool, true, false, ◌&&◌, ◌||◌, Option, none, some, List, [], ◌∷◌,
  ltb, leb, ◌==◌, ◌⧺◌, if◌then◌else◌, ◌⊎◌, inl, inr,
}
use golang_fin.Std.Json.{Json, Items, Members, text, no_items, item, no_members, member}

-- What the built-in `IsScalar` is, by the three comparisons of it
abbrev BothLt : Ordering → Ordering → Type 0
BothLt Ordering.lt o = IsLt o
BothLt _ _ = ⊥

abbrev Scalar : Ordering → Ordering → Ordering → Type 0
Scalar Ordering.lt _ _ = Unit
Scalar Ordering.eq o p = BothLt o p
Scalar Ordering.gt o p = BothLt o p

abbrev lt_or_not : (o : Ordering) → IsLt o ⊎ Unit {0}
lt_or_not Ordering.lt = inl tt
lt_or_not _ = inr tt

abbrev both_or_not : (o p : Ordering) → BothLt o p ⊎ Unit {0}
both_or_not Ordering.lt p = lt_or_not p
both_or_not Ordering.eq p = inr tt
both_or_not Ordering.gt p = inr tt

abbrev scalar_or_not : (o p q : Ordering) → Scalar o p q ⊎ Unit {0}
scalar_or_not Ordering.lt p q = inl tt
scalar_or_not Ordering.eq p q = both_or_not p q
scalar_or_not Ordering.gt p q = both_or_not p q

-- The character of a number, or U+FFFD
unfoldable pub char_of : ℕ → Char
char_of n = elim (scalar_or_not (compare n 0xd800) (compare 0xdfff n) (compare n 0x110000)) [
  | inl h ↦ char n h
  | inr u ↦ char 0xfffd tt
]

-- Where the scanner is in a number
pub data NumState : Type 0 where
  minus leading_zero digits dot dot_digits exp exp_sign exp_digits : NumState

-- What a string is scanned for: a value, or a key after some members
pub data Purpose : Type 0 where
  as_value : Purpose
  as_key : Members → Purpose

-- An array or an object that is open: what it holds so far, and the key whose value is scanned
pub data Frame : Type 0 where
  in_array : Items → Frame
  in_object : Members → String → Frame

-- What comes next. A string keeps the first half of a surrogate pair, if it has just been read.
pub data Mode : Type 0 where
  value value_or_end : Mode
  key : Members → Mode
  key_or_end : Mode
  colon : Members → String → Mode
  in_string in_escape : Purpose → Option ℕ → String → Mode
  in_hex : Purpose → Option ℕ → String → ℕ → ℕ → Mode
  in_literal : String → Json → Mode
  in_number : NumState → String → Mode
  after_item : Items → Mode
  after_member : Members → Mode
  ended : Json → Mode

pub data State : Type 0 where
  refused : State
  at : Mode → List Frame → State

abbrev pub snoc_item : Items → Json → Items
snoc_item no_items j = item j no_items
snoc_item (item i js) j = item i (snoc_item js j)

abbrev pub snoc_member : Members → String → Json → Members
snoc_member no_members k j = member k j no_members
snoc_member (member k' i ms) k j = member k' i (snoc_member ms k j)

-- A value is complete.
abbrev pub complete : Json → List Frame → State
complete j [] = at (ended j) []
complete j (in_array js ∷ stack) = at (after_item (snoc_item js j)) stack
complete j (in_object ms k ∷ stack) = at (after_member (snoc_member ms k j)) stack

abbrev pub string_done : Purpose → String → List Frame → State
string_done as_value s stack = complete (text s) stack
string_done (as_key ms) s stack = at (colon ms s) stack

abbrev pub is_space : ℕ → Bool
is_space c = c == 0x20 || c == 0x09 || c == 0x0a || c == 0x0d

abbrev pub is_digit : ℕ → Bool
is_digit c = leb b'0' c && leb c b'9'

-- How a number goes on with a character; `none` if it ends before it.
abbrev after_digits : ℕ → Option NumState
after_digits c = if c == b'.' then some dot else if c == b'e' || c == b'E' then some exp else none

unfoldable pub next_number : NumState → ℕ → Option NumState
next_number minus c =
    if c == b'0' then some leading_zero else if is_digit c then some digits else none
next_number leading_zero c = after_digits c
next_number digits c = if is_digit c then some digits else after_digits c
next_number dot c = if is_digit c then some dot_digits else none
next_number dot_digits c =
    if is_digit c then some dot_digits else if c == b'e' || c == b'E' then some exp else none
next_number exp c =
    if is_digit c then some exp_digits else if c == b'+' || c == b'-' then some exp_sign else none
next_number exp_sign c = if is_digit c then some exp_digits else none
next_number exp_digits c = if is_digit c then some exp_digits else none

-- Whether a number may end
abbrev pub may_end : NumState → Bool
may_end leading_zero = true
may_end digits = true
may_end dot_digits = true
may_end exp_digits = true
may_end _ = false

abbrev pub snoc : String → Char → String
snoc s ch = s ⧺ String.◌∷◌ ch ""

-- A half of a surrogate pair that stays alone becomes U+FFFD.
abbrev pub flush : Option ℕ → String → String
flush none s = s
flush (some high) s = snoc s (char_of 0xfffd)

abbrev is_high : ℕ → Bool
is_high u = leb 0xd800 u && ltb u 0xdc00

abbrev is_low : ℕ → Bool
is_low u = leb 0xdc00 u && ltb u 0xe000

abbrev put_unit : Purpose → String → ℕ → Mode
put_unit purpose s u =
    if is_high u then in_string purpose (some u) s else in_string purpose none (snoc s (char_of u))

-- The number of \u and four digits
abbrev pub unit_read : Purpose → Option ℕ → String → ℕ → Mode
unit_read purpose none s u = put_unit purpose s u
unit_read purpose (some high) s u =
    if is_low u
    then in_string purpose none
        (snoc s (char_of ((high - 0xd800) * 0x400 + (u - 0xdc00) + 0x10000)))
    else put_unit purpose (flush (some high) s) u

unfoldable pub hex_value : ℕ → Option ℕ
hex_value c =
    if is_digit c
    then some (c - b'0')
    else if leb b'a' c && leb c b'f'
    then some (c - b'a' + 10)
    else if leb b'A' c && leb c b'F'
    then some (c - b'A' + 10)
    else none
