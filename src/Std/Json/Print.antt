-- ===== src/Std/Json/Print.antt =====
-- Package encoding/json: the text that `Marshal` makes of a value, in front of a given rest.
use golang_fin.Prelude.{
  ℕ, ◌/◌, ◌%◌, String, Char, code, ◌||◌, ltb, ◌==◌, ◌⧺◌, if◌then◌else◌, true, false,
}
use golang_fin.Std.Strings.{char_at}
use golang_fin.Std.Json.{
  Json, Items, Members, null, boolean, number, text, array, object, no_items, item, no_members,
  member,
}

-- A digit of a base of 16
abbrev pub hex_char : ℕ → Char
hex_char k = char_at k "0123456789abcdef" "f"

abbrev pub put : String → String → String
put s rest = s ⧺ rest

-- "\u00" and two digits
abbrev pub hex_escape : ℕ → String → String
hex_escape c rest =
    put "\\u00" (String.◌∷◌ (hex_char (c / 16)) (String.◌∷◌ (hex_char (c % 16)) rest))

-- A character of a string: Go escapes what HTML and JavaScript treat apart, too.
unfoldable pub escape_char : Char → String → String
unfolding char_at
escape_char ch rest =
    let c = code ch in
    if c == b'"'
    then put "\\\"" rest
    else if c == 0x5c
    then put "\\\\" rest
    else if c == 0x08
    then put "\\b" rest
    else if c == 0x0c
    then put "\\f" rest
    else if c == 0x0a
    then put "\\n" rest
    else if c == 0x0d
    then put "\\r" rest
    else if c == 0x09
    then put "\\t" rest
    else if ltb c 0x20
    then hex_escape c rest
    else if c == b'<' || c == b'>' || c == b'&'
    then hex_escape c rest
    else if c == 0x2028
    then put "\\u2028" rest
    else if c == 0x2029
    then put "\\u2029" rest
    else String.◌∷◌ ch rest

unfoldable pub escape : String → String → String
escape String.[] rest = rest
escape (String.◌∷◌ ch s) rest = escape_char ch (escape s rest)

abbrev pub quoted : String → String → String
quoted s rest = String.◌∷◌ "\"" (escape s (String.◌∷◌ "\"" rest))

unfoldable mutual
  pub print_to : Json → String → String
  print_to null rest = put "null" rest
  print_to (boolean true) rest = put "true" rest
  print_to (boolean false) rest = put "false" rest
  print_to (number digits) rest = put digits rest
  print_to (text s) rest = quoted s rest
  print_to (array js) rest = String.◌∷◌ "[" (print_items js rest)
  print_to (object ms) rest = String.◌∷◌ "{" (print_members ms rest)

  -- From behind the opening bracket on
  pub print_items : Items → String → String
  print_items no_items rest = String.◌∷◌ "]" rest
  print_items (item j js) rest = print_to j (print_more_items js rest)

  pub print_more_items : Items → String → String
  print_more_items no_items rest = String.◌∷◌ "]" rest
  print_more_items (item j js) rest = String.◌∷◌ "," (print_to j (print_more_items js rest))

  pub print_members : Members → String → String
  print_members no_members rest = String.◌∷◌ "}" rest
  print_members (member key j ms) rest =
      quoted key (String.◌∷◌ ":" (print_to j (print_more_members ms rest)))

  pub print_more_members : Members → String → String
  print_more_members no_members rest = String.◌∷◌ "}" rest
  print_more_members (member key j ms) rest =
      String.◌∷◌ "," (quoted key (String.◌∷◌ ":" (print_to j (print_more_members ms rest))))

unfoldable pub print : Json → String
print j = print_to j ""
