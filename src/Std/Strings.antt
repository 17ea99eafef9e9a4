-- ===== src/Std/Strings.antt =====
-- Package strings: `Split` with a separator of one character, `TrimSpace` and `ToLower`.
use golang_fin.Prelude.{
  ℕ, String, Char, code, List, [], ◌∷◌, ◌==◌, if◌then◌else◌, ◌-◌, zero, suc, leb, ltb, Bool, ◌&&◌,
  ◌||◌,
}

-- the character goes in front of the first field
abbrev pub cons_field : Char → List String → List String
cons_field ch [] = (String.◌∷◌ ch "") ∷ []
cons_field ch (p ∷ ps) = (String.◌∷◌ ch p) ∷ ps

-- `strings.Split(s, sep)`: one field more than there are separators.
unfoldable pub split : ℕ → String → List String
split sep String.[] = "" ∷ []
split sep (String.◌∷◌ ch s) =
    let rest = split sep s in if code ch == sep then "" ∷ rest else cons_field ch rest

-- `unicode.IsSpace`
unfoldable pub is_space : ℕ → Bool
is_space c =
    leb 0x09 c && leb c 0x0d
    || c == 0x20
    || c == 0x85
    || c == 0xa0
    || c == 0x1680
    || leb 0x2000 c && leb c 0x200a
    || c == 0x2028
    || c == 0x2029
    || c == 0x202f
    || c == 0x205f
    || c == 0x3000

unfoldable pub trim_left : String → String
unfolding is_space
trim_left String.[] = ""
trim_left (String.◌∷◌ ch s) =
    let rest = trim_left s in if is_space (code ch) then rest else String.◌∷◌ ch s

-- A character stays if it is no space or something after it stays.
abbrev keep_before : Char → String → String
keep_before ch String.[] = if is_space (code ch) then "" else String.◌∷◌ ch ""
keep_before ch (String.◌∷◌ d rest) = String.◌∷◌ ch (String.◌∷◌ d rest)

unfoldable pub trim_right : String → String
trim_right String.[] = ""
trim_right (String.◌∷◌ ch s) = keep_before ch (trim_right s)

-- `strings.TrimSpace`
unfoldable pub trim_space : String → String
unfolding trim_left trim_right
trim_space s = trim_right (trim_left s)

-- The character at a position, or the given one past the end.
unfoldable pub char_at : ℕ → String → Char → Char
char_at n String.[] ch = ch
char_at zero (String.◌∷◌ d s) ch = d
char_at (suc n) (String.◌∷◌ d s) ch = char_at n s ch

-- `unicode.ToLower`, with the tables for the characters beyond ASCII as a parameter.
unfoldable pub lower_char : (Char → Char) → Char → Char
unfolding char_at
lower_char beyond ch =
    let c = code ch in
    if leb b'A' c && leb c b'Z'
    then char_at (c - b'A') "abcdefghijklmnopqrstuvwxyz" ch
    else if ltb c 0x80
    then ch
    else beyond ch

-- `strings.ToLower`
unfoldable pub to_lower : (Char → Char) → String → String
unfolding lower_char
to_lower beyond String.[] = ""
to_lower beyond (String.◌∷◌ ch s) = String.◌∷◌ (lower_char beyond ch) (to_lower beyond s)
