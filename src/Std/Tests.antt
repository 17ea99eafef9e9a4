-- ===== src/Std/Tests.antt =====
-- Runs of the packages strconv, strings and net, on inputs whose results their documentation gives.
use golang_fin.Prelude.{String, ◌≡◌, refl, arith, Bool, true, false, Option, some, none, [], ◌∷◌}
use golang_fin.Prelude.Int.{pos, negsuc}
use golang_fin.Std.Strings.{split}
use golang_fin.Std.Strconv.{value, failed, syntax, range, atoi, itoa}
use golang_fin.Std.Strconv.RoundTrip.{atoi-itoa}
use golang_fin.Std.Net.{v4, v6, parse_ip, parse_addr, parse_cidr, contains, to4}

runs : Unit {0}
unfolding split atoi itoa parse_ip parse_addr parse_cidr contains to4
runs = tt

atoi_tests :
    (atoi "042" ≡ value (pos 42))
    × (atoi "+7" ≡ value (pos 7))
    × (atoi "-0" ≡ value (pos 0))
    × (atoi "9223372036854775808" ≡ failed range)
    × (atoi "-9223372036854775808" ≡ value (negsuc 9223372036854775807))
    × (atoi "99999999999999999999x" ≡ failed range)
    × (atoi "1_0" ≡ failed syntax)
    × (atoi "" ≡ failed syntax)
unfolding runs
atoi_tests = (refl, refl, refl, refl, refl, refl, refl, refl)

split_tests : (split b'.' "a..b" ≡ "a" ∷ "" ∷ "b" ∷ []) × (split b'.' "" ≡ "" ∷ [])
unfolding runs
split_tests = (refl, refl)

address_tests :
    (parse_ip "1.2.3.4" ≡ some (v4 0x01020304))
    × (parse_ip "1.2.3" ≡ none)
    × (parse_ip "01.2.3.4" ≡ none)
    × (parse_ip "256.2.3.4" ≡ none)
    × (parse_ip "::1" ≡ some (v6 1))
    × (parse_ip "::" ≡ some (v6 0))
    × (parse_ip "::ffff:1.2.3.4" ≡ some (v6 0xffff01020304))
    × (parse_ip "1:2:3:4:5:6:7:8::" ≡ none)
    × (parse_ip "1::2::3" ≡ none)
    × (parse_ip ":1::2" ≡ none)
unfolding runs
address_tests = (refl, refl, refl, refl, refl, refl, refl, refl, refl, refl)

in_network : String → String → Option Bool
unfolding runs
in_network network address = elim (parse_cidr network) [
  | none ↦ none
  | some net ↦ some (contains net (parse_ip address))
]

network_tests :
    (in_network "10.0.0.77/24" "10.0.0.1" ≡ some true)
    × (in_network "10.0.0.0/24" "10.0.1.0" ≡ some false)
    × (in_network "10.0.0.0/24" "::ffff:10.0.0.9" ≡ some true)
    × (in_network "10.0.0.0/0" "203.0.113.9" ≡ some true)
    × (in_network "10.0.0.0/24" "nonsense" ≡ some false)
    × (in_network "010.0.0.0/24" "10.0.0.1" ≡ none)
    × (in_network "10.0.0.0/33" "10.0.0.1" ≡ none)
    × (in_network "fe80::/10" "fe80::7" ≡ some true)
unfolding runs in_network
network_tests = (refl, refl, refl, refl, refl, refl, refl, refl)

atoi-itoa_example : atoi (itoa (negsuc 255)) ≡ value (negsuc 255)
atoi-itoa_example = atoi-itoa (negsuc 255) (omega arith, omega arith)
