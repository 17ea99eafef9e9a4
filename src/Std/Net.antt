-- ===== src/Std/Net.antt =====
-- Package net: `ParseIP`, `ParseCIDR` and `IPNet.Contains`, by way of `netip.ParseAddr`.
mod Octets
mod Ipv6
pub mod Dotted
use golang_fin.Prelude.{
  ℕ, zero, suc, ◌+◌, ◌-◌, ◌*◌, ◌/◌, ◌%◌, ◌^◌, String, Char, code, Bool, true, false, ◌||◌, ◌&&◌,
  Option, none, some, List, [], ◌∷◌, ltb, leb, ◌==◌, ◌=~◌, if◌then◌else◌,
}
use golang_fin.Std.Strings.{split}
use golang_fin.Std.Strconv.{is_digit}
use Octets.{parse_ipv4}
use Ipv6.{parse_ipv6}

-- An address of 32 or 128 bits, as a number.
pub data IpAddr : Type 0 where
  v4 : ℕ → IpAddr
  v6 : ℕ → IpAddr

-- `netip.ParseAddr` without zones: no text is both a dotted quad and an IPv6 address.
unfoldable pub parse_addr : String → Option IpAddr
unfolding parse_ipv4 parse_ipv6
parse_addr s = elim (parse_ipv4 s) [
  | some a ↦ some (v4 a)
  | none ↦ elim (parse_ipv6 s) [ some a ↦ some (v6 a) | none ↦ none ]
]

-- `IP.To4`: an IPv4 address, also one that is mapped into IPv6.
unfoldable pub to4 : IpAddr → IpAddr
to4 (v4 a) = v4 a
to4 (v6 a) = if a / 2 ^ 32 == 0xffff then v4 (a % 2 ^ 32) else v6 a

-- `net.ParseIP`, where `none` is the nil IP.
unfoldable pub parse_ip : String → Option IpAddr
unfolding parse_addr
parse_ip s = parse_addr s

-- An `IPNet`: its masked address and the number of leading ones of the mask.
pub record IpNet : Type 0 where
  pub ip : IpAddr
  pub ones : ℕ

abbrev pub keep_bits : ℕ → ℕ → ℕ → ℕ
keep_bits width ones a = a / 2 ^ (width - ones) * 2 ^ (width - ones)

abbrev masked : IpAddr → ℕ → Option IpNet
masked (v4 a) n = if leb n 32 then some (record { ip = v4 (keep_bits 32 n a); ones = n }) else none
masked (v6 a) n =
    if leb n 128 then some (record { ip = v6 (keep_bits 128 n a); ones = n }) else none

-- `dtoi`: decimal digits to a number below 0xffffff.
dtoi : ℕ → String → Option ℕ
dtoi n String.[] = some n
dtoi n (String.◌∷◌ ch s) =
    let n1 = n * 10 + (code ch - b'0') in
    let rest = dtoi n1 s in
    if is_digit (code ch) then if leb 0xffffff n1 then none else rest else none

-- what follows the first slash, and what stands before it
cut_slash : String → Option (String × String)
cut_slash String.[] = none
cut_slash (String.◌∷◌ ch s) =
    let rest : Option (String × String) = elim (cut_slash s) [
      | none ↦ none
      | some (p, q) ↦ some (String.◌∷◌ ch p, q)
    ] in
    if code ch == b'/' then some ("", s) else rest

prefix_length : String → Option ℕ
unfolding dtoi
prefix_length s = if s =~ "" then none else dtoi 0 s

net_of : Option IpAddr → Option ℕ → Option IpNet
net_of (some a) (some n) = masked a n
net_of _ _ = none

-- `net.ParseCIDR`, of which the program uses the network; `none` is its ParseError.
unfoldable pub parse_cidr : String → Option IpNet
unfolding parse_addr cut_slash prefix_length net_of
parse_cidr s = elim (cut_slash s) [
  | none ↦ none
  | some (addr, mask) ↦ net_of (parse_addr addr) (prefix_length mask)
]

-- The network number and the length of its mask in the family of the number.
same_prefix : IpAddr → ℕ → IpAddr → Bool
same_prefix (v4 n) ones (v4 a) = n / 2 ^ (32 - ones) == a / 2 ^ (32 - ones)
same_prefix (v6 n) ones (v6 a) = n / 2 ^ (128 - ones) == a / 2 ^ (128 - ones)
same_prefix _ _ _ = false

-- A mask of 16 bytes is cut to 4 for a network of mapped addresses.
network_ones : IpAddr → ℕ → ℕ
network_ones (v4 n) ones = ones
network_ones (v6 n) ones = if n / 2 ^ 32 == 0xffff then ones - 96 else ones

-- `IPNet.Contains`; the nil IP is in no network.
unfoldable pub contains : IpNet → Option IpAddr → Bool
unfolding same_prefix network_ones to4
contains net none = false
contains net (some a) = same_prefix (to4 net.ip) (network_ones net.ip net.ones) (to4 a)
