-- ===== src/Std/Json.antt =====
-- Package encoding/json: JSON values, and `Unmarshal` of a value into a struct with fields of type
-- string, int and bool, nested structs and slices of structs. What the decoders take of a scanner of
-- texts is `JsonSyntax`; Syntax makes it of the scanner of the package, the machine of Scan and Step.
pub mod Print
pub mod Scan
pub mod Step
pub mod StringTrip
pub mod NumberTrip
pub mod RoundTrip
pub mod Numerals
pub mod Syntax
use golang_fin.Prelude.{
  ℕ, ◌+◌, String, code, Bool, true, false, ◌&&◌, Option, none, some, leb, ◌==◌, if◌then◌else◌, List,
  [], ◌∷◌,
}
use golang_fin.Prelude.Int.{ℤ}
use golang_fin.Std.Strconv.{value, failed, atoi}

mutual
  -- A number is kept as it is written.
  pub data Json : Type 0 where
    null : Json
    boolean : Bool → Json
    number : String → Json
    text : String → Json
    array : Items → Json
    object : Members → Json

  pub data Items : Type 0 where
    no_items : Items
    item : Json → Items → Items

  pub data Members : Type 0 where
    no_members : Members
    member : String → Json → Members → Members

-- What the scanner makes of a text, and the text of the error that `Unmarshal` into the struct of a
-- name returns for it: the error of a value that does not fit names the struct and its field.
pub record JsonSyntax : Type 0 where
  pub scan : String → Option Json
  pub error_of : String → String → String

-- Simple folding of the letters that occur in field names; U+017F and U+212A fold to s and k.
fold_code : ℕ → ℕ
fold_code c =
    if leb b'A' c && leb c b'Z'
    then c + 32
    else if c == 0x17f
    then b's'
    else if c == 0x212a
    then b'k'
    else c

-- A key names a field if both fold to the same text.
unfoldable pub names : String → String → Bool
unfolding fold_code
names String.[] String.[] = true
names (String.◌∷◌ c key) (String.◌∷◌ d field) =
    fold_code (code c) == fold_code (code d) && names key field
names _ _ = false

-- A value put into a field, and whether its type fits; null leaves the field as it is.
unfoldable pub set_string : Json → String → String × Bool
set_string null old = (old, true)
set_string (text s) old = (s, true)
set_string _ old = (old, false)

unfoldable pub set_int : Json → ℤ → ℤ × Bool
set_int null old = (old, true)
set_int (number digits) old = elim (atoi digits) [ value z ↦ (z, true) | failed e ↦ (old, false) ]
set_int _ old = (old, false)

unfoldable pub set_bool : Json → Bool → Bool × Bool
set_bool null old = (old, true)
set_bool (boolean b) old = (b, true)
set_bool _ old = (old, false)

abbrev pub with_field : {X A : Type 0} → X × Bool → (X → A) → A × Bool
with_field (x, fits) put = (put x, fits)

-- The members one after another, also after one that does not fit.
unfoldable pub set_members {ℓ} :
    {A : Type ℓ} → (String → Json → A → A × Bool) → Members → A → A × Bool
set_members set no_members a = (a, true)
set_members set (member key j ms) a =
    let (a1, fits) = set key j a in let (a2, rest) = set_members set ms a1 in (a2, fits && rest)

unfoldable pub unmarshal_value {ℓ} :
    {A : Type ℓ} → (String → Json → A → A × Bool) → Json → A → A × Bool
unfolding set_members
unmarshal_value set null a = (a, true)
unmarshal_value set (object ms) a = set_members set ms a
unmarshal_value set _ a = (a, false)

-- The elements of an array one after another, each put into a new value.
unfoldable pub set_items {ℓ} :
    {A : Type ℓ} → (String → Json → A → A × Bool) → A → Items → List A × Bool
unfolding unmarshal_value
set_items set zero no_items = ([], true)
set_items set zero (item j js) =
    let (a, fits) = unmarshal_value set j zero in
    let (rest, others) = set_items set zero js in (a ∷ rest, fits && others)

-- A slice of structs; the nil slice is `none`.
unfoldable pub set_slice {ℓ} :
    {A : Type ℓ}
    → (String → Json → A → A × Bool)
    → A
    → Json
    → Option (List A)
    → Option (List A) × Bool
unfolding set_items
set_slice set zero null old = (none, true)
set_slice set zero (array js) old = let (list, fits) = set_items set zero js in (some list, fits)
set_slice set zero _ old = (old, false)
