-- ===== src/Std/Net/Octets.antt =====
-- `parseIPv4` of net/netip: four decimal octets with no leading zeros.
use golang_fin.Prelude.{
  ℕ, ◌+◌, ◌-◌, ◌*◌, String, code, Option, none, some, List, [], ◌∷◌, ◌&&◌, ltb, ◌==◌, ◌=~◌,
  if◌then◌else◌,
}
use golang_fin.Std.Strings.{split}
use golang_fin.Std.Strconv.{is_digit}

-- `val` and `digLen` of the loop over one field
unfoldable pub octet_from : ℕ → ℕ → String → Option ℕ
octet_from val dig_len String.[] = some val
octet_from val dig_len (String.◌∷◌ ch s) =
    let val1 = val * 10 + (code ch - b'0') in
    let rest = octet_from val1 (dig_len + 1) s in
    if is_digit (code ch)
    then if dig_len == 1 && val == 0 then none else if ltb 255 val1 then none else rest
    else none

unfoldable pub octet : String → Option ℕ
unfolding octet_from
octet s = if s =~ "" then none else octet_from 0 0 s

infixl 5 ◌>>=◌
abbrev ◌>>=◌ {ℓ κ} : {A : Type ℓ} {B : Type κ} → Option A → (A → Option B) → Option B
none >>= k = none
some a >>= k = k a

unfoldable pub quad : List String → Option ℕ
unfolding octet
quad (a ∷ b ∷ c ∷ d ∷ []) = do
  w ← octet a
  x ← octet b
  y ← octet c
  z ← octet d
  some (((w * 256 + x) * 256 + y) * 256 + z)
quad _ = none

unfoldable pub parse_ipv4 : String → Option ℕ
unfolding quad split
parse_ipv4 s = quad (split b'.' s)
