-- ===== src/Std/Net/Dotted.antt =====
-- Package net on plain dotted addresses: where `Atoi` reads numbers from 0 to 255 without signs and
-- leading zeros, `ParseCIDR` finds an address.
use golang_fin.Prelude.{
  ℕ, ◌≤◌, ◌<◌, ◌+◌, ◌*◌, ◌-◌, String, Char, code, ◌≡◌, refl, Bool, true, false, ◌&&◌, not, some,
  List, [], ◌∷◌, leb, ◌==◌, arith, All, length, ◌⧺◌, inl, inr, ◌⊎◌, subst, eq_false_of_ne,
}
use golang_fin.Prelude.Int.{pos}
use text.Mathlib.TextLemmas.{cons-append, nil-append, cons-ne-nil}
use golang_fin.Std.Strings.{split, cons_field}
use golang_fin.Std.Strconv.{value, failed, is_digit, parse_digits, parse_uint, atoi, Parsed, signed}
use golang_fin.Std.Net.{
  dtoi, prefix_length, cut_slash, IpNet, v4, keep_bits, parse_cidr, parse_addr, net_of,
}
use golang_fin.Std.Net.Octets.{octet_from, octet, quad, parse_ipv4}

-- A digit, or more digits of which the first is not 0.
unfoldable pub is_plain_number : String → Bool
is_plain_number String.[] = false
is_plain_number (String.◌∷◌ ch String.[]) = is_digit (code ch)
is_plain_number (String.◌∷◌ ch (String.◌∷◌ d s)) = leb b'1' (code ch) && leb (code ch) b'9'

parse_digits-grows : (v : ℕ) (s : String) (n : ℕ) → parse_digits v s ≡ value n → v ≤ n
unfolding parse_digits
parse_digits-grows v String.[] n h = ground arith
parse_digits-grows v (String.◌∷◌ ch s) n h =
    ground (arith, parse_digits-grows (v * 10 + (code ch - b'0')) s n)

-- The number that `ParseUint` reads, `octet_from` reads as well, if no zero leads.
octet_from-digits :
    (v len : ℕ) (s : String) (n : ℕ)
    → 1 ≤ v
    → parse_digits v s ≡ value n
    → n ≤ 255
    → octet_from v len s ≡ some n
unfolding octet_from parse_digits
octet_from-digits v len String.[] n p h k = ground arith
octet_from-digits v len (String.◌∷◌ ch s) n p h k =
    let v1 = v * 10 + (code ch - b'0') in
    ground (arith, parse_digits-grows v1 s n, octet_from-digits v1 (len + 1) s n)

dtoi-digits :
    (v : ℕ) (s : String) (n : ℕ) → parse_digits v s ≡ value n → n < 0xffffff → dtoi v s ≡ some n
unfolding dtoi parse_digits
dtoi-digits v String.[] n h k = ground arith
dtoi-digits v (String.◌∷◌ ch s) n h k =
    let v1 = v * 10 + (code ch - b'0') in
    ground (arith, parse_digits-grows v1 s n, dtoi-digits v1 s n)

prefix_length-uint :
    (s : String) (n : ℕ) → parse_uint s ≡ value n → n < 0xffffff → prefix_length s ≡ some n
unfolding prefix_length parse_uint
prefix_length-uint String.[] n h k = ground arith
prefix_length-uint (String.◌∷◌ ch s) n h k =
    rw (eq_false_of_ne (String.◌∷◌ ch s) "" (cons-ne-nil ch s))
      (dtoi-digits 0 (String.◌∷◌ ch s) n h k)

-- Neither the numbers nor the dots between them are slashes.
no_slash : String → Bool
no_slash String.[] = true
no_slash (String.◌∷◌ ch s) = let rest = no_slash s in not (code ch == b'/') && rest

parse_digits-no_slash :
    (v : ℕ) (s : String) (n : ℕ) → parse_digits v s ≡ value n → no_slash s ≡ true
unfolding parse_digits no_slash
parse_digits-no_slash v String.[] n h = refl
parse_digits-no_slash v (String.◌∷◌ ch s) n h =
    ground (arith, parse_digits-no_slash (v * 10 + (code ch - b'0')) s n)

abbrev NoSlash : String → Type 0
NoSlash s = no_slash s ≡ true

cons_field-NoSlash :
    (ch : Char) (ps : List String)
    → All NoSlash (cons_field ch ps)
    → ((code ch == b'/') ≡ false) × All NoSlash ps
unfolding no_slash
cons_field-NoSlash ch [] h = (ground arith, tt)
cons_field-NoSlash ch (p ∷ ps) (h, hs) = (ground arith, (ground arith, hs))

-- What the fields after one more character are made of
split-cases :
    (ch : Char) (s : String)
    → ((code ch ≡ b'.') × (split b'.' (String.◌∷◌ ch s) ≡ "" ∷ split b'.' s))
      ⊎ (split b'.' (String.◌∷◌ ch s) ≡ cons_field ch (split b'.' s))
unfolding split
split-cases ch s = ground arith

split-NoSlash : (s : String) → All NoSlash (split b'.' s) → NoSlash s
unfolding no_slash
split-NoSlash String.[] h = refl
split-NoSlash (String.◌∷◌ ch s) h = elim (split-cases ch s) [
  | inl (dot, q) ↦ let rest = split-NoSlash s (subst (All NoSlash) q h).1 in ground (arith, rest)
  | inr q ↦
      let (other, hs) = cons_field-NoSlash ch (split b'.' s) (subst (All NoSlash) q h) in
      let rest = split-NoSlash s hs in ground (arith, rest)
]

cut_slash-NoSlash : (s mask : String) → NoSlash s → cut_slash (s ⧺ "/" ⧺ mask) ≡ some (s, mask)
unfolding cut_slash no_slash
cut_slash-NoSlash String.[] mask h =
    rw (nil-append ("/" ⧺ mask), cons-append "/" "" mask, nil-append mask)
cut_slash-NoSlash (String.◌∷◌ ch s) mask h =
    let rest = cut_slash-NoSlash s mask in
    rw (cons-append ch s ("/" ⧺ mask)) (ground (arith, rest, h))

plain-first :
    (ch : Char) (s : String) → is_plain_number (String.◌∷◌ ch s) ≡ true → is_digit (code ch) ≡ true
unfolding is_plain_number
plain-first ch String.[] h = h
plain-first ch (String.◌∷◌ d s) h = ground arith

signed-value : (r : Parsed ℕ) (n : ℕ) → signed false r ≡ value (pos n) → r ≡ value n
signed-value (value m) n h = ground arith
signed-value (failed e) n h = ground arith

-- A plain number has no sign: what `Atoi` reads are its digits.
plain-digits :
    (p : String) (n : ℕ)
    → is_plain_number p ≡ true
    → atoi p ≡ value (pos n)
    → parse_digits 0 p ≡ value n
unfolding atoi parse_uint
plain-digits String.[] n h a = ground arith
plain-digits (String.◌∷◌ ch s) n h a =
    signed-value (parse_digits 0 (String.◌∷◌ ch s)) n (ground (arith, plain-first ch s h))

plain-octet :
    (p : String) (n : ℕ)
    → is_plain_number p ≡ true
    → parse_digits 0 p ≡ value n
    → n ≤ 255
    → octet p ≡ some n
unfolding is_plain_number octet octet_from parse_digits
plain-octet String.[] n h a k = ground arith
plain-octet (String.◌∷◌ ch String.[]) n h a k =
    rw (eq_false_of_ne (String.◌∷◌ ch "") "" (cons-ne-nil ch "")) (ground arith)
plain-octet (String.◌∷◌ ch (String.◌∷◌ d s)) n h a k =
    rw (eq_false_of_ne (String.◌∷◌ ch (String.◌∷◌ d s)) "" (cons-ne-nil ch (String.◌∷◌ d s)))
      (ground (arith, octet_from-digits (code ch - b'0') 1 (String.◌∷◌ d s) n))

quad-four :
    (ps : List String)
    → length ps ≡ 4
    → All (λ p. (n : ℕ) × (octet p ≡ some n)) ps
    → (a : ℕ) × (quad ps ≡ some a)
unfolding quad
quad-four (p ∷ q ∷ r ∷ s ∷ []) l ((a, ha), ((b, hb), ((c, hc), ((d, hd), _)))) =
    (((a * 256 + b) * 256 + c) * 256 + d, ground arith)
quad-four (p ∷ q ∷ r ∷ s ∷ t ∷ ps) l h = absurd (omega arith)
quad-four (p ∷ q ∷ r ∷ []) l h = absurd (omega arith)
quad-four (p ∷ q ∷ []) l h = absurd (omega arith)
quad-four (p ∷ []) l h = absurd (omega arith)
quad-four [] l h = absurd (omega arith)

-- A plain number that `Atoi` reads as a number up to 255
abbrev pub IsField : String → Type 0
IsField p = (is_plain_number p ≡ true) × ((n : ℕ) × (atoi p ≡ value (pos n)) × (n ≤ 255))

fields-octets : (ps : List String) → All IsField ps → All (λ p. (n : ℕ) × (octet p ≡ some n)) ps
fields-octets [] h = tt
fields-octets (p ∷ ps) ((plain, (n, a, k)), hs) =
    ((n, plain-octet p n plain (plain-digits p n plain a) k), fields-octets ps hs)

fields-NoSlash : (ps : List String) → All IsField ps → All NoSlash ps
fields-NoSlash [] h = tt
fields-NoSlash (p ∷ ps) ((plain, (n, a, k)), hs) =
    (parse_digits-no_slash 0 p n (plain-digits p n plain a), fields-NoSlash ps hs)

-- Four such fields and the length of a mask are a network.
pub parse_cidr-fields :
    (ip mask : String) (ones : ℕ)
    → length (split b'.' ip) ≡ 4
    → All IsField (split b'.' ip)
    → parse_uint mask ≡ value ones
    → ones ≤ 32
    → (net : IpNet) × (parse_cidr (ip ⧺ "/" ⧺ mask) ≡ some net)
unfolding parse_cidr parse_addr parse_ipv4 net_of
parse_cidr-fields ip mask ones four fields reads low =
    let (a, quad_is) = quad-four (split b'.' ip) four (fields-octets _ fields) in
    let fits : leb ones 32 ≡ true = ground arith in
    (
      record { ip = v4 (keep_bits 32 ones a); ones = ones },
      rw
          (
            parse_cidr,
            cut_slash-NoSlash ip mask (split-NoSlash ip (fields-NoSlash _ fields)),
            parse_addr,
            parse_ipv4,
            quad_is,
            prefix_length-uint mask ones reads (omega arith),
            fits,
          )
          refl,
    )
