-- ===== src/App/Subnets/Accepted.antt =====
-- Entries that `SimpleIPDataValidate` accepts, in the loop of `IPIsInSubnetCheck`.
use golang_fin.Prelude.{
  String, ◌≡◌, refl, Bool, true, false, Option, some, List, [], ◌∷◌, arith, All, Bool-cases, inl,
  inr,
}
use golang_fin.Std.Strings.{split}
use golang_fin.Std.Strconv.{itoa}
use golang_fin.Std.Strconv.RoundTrip.{parse_uint-format}
use golang_fin.Std.Net.{IpAddr, IpNet, parse_cidr, contains}
use golang_fin.Std.Net.Dotted.{is_plain_number, IsField, parse_cidr-fields}
use golang_fin.Errors.{ok}
use golang_fin.StorageData.{StorageIpData}
use golang_fin.App.Validate.{simple_ip_data_validate}
use golang_fin.App.Validate.Laws.{ip_data_accepts_iff, IsPart}
use golang_fin.App.Subnets.{cidr_text, scan_subnets}

-- The entry has been validated, and no field of its address has a sign or a leading zero.
abbrev pub IsPlainEntry : StorageIpData → Type 0
IsPlainEntry d =
    (simple_ip_data_validate d false ≡ ok tt)
    × All (λ p. is_plain_number p ≡ true) (split b'.' d.ip)

plain_fields :
    (ps : List String) → All IsPart ps → All (λ p. is_plain_number p ≡ true) ps → All IsField ps
plain_fields [] h k = tt
plain_fields (p ∷ ps) (h, hs) (k, ks) = ((k, h), plain_fields ps hs ks)

-- `ParseCIDR` reads the text of such an entry.
entry-parse_cidr :
    (d : StorageIpData) → IsPlainEntry d → (net : IpNet) × (parse_cidr (cidr_text d) ≡ some net)
unfolding cidr_text itoa
entry-parse_cidr d (accepted, plain) =
    let (dotted, (n, is_n, low, high)) = (ip_data_accepts_iff d).0 accepted in
    rw is_n (
      parse_cidr-fields d.ip _ n dotted.four (plain_fields _ dotted.in_range plain)
        (parse_uint-format n (omega arith)) (omega arith))

-- Over entries that have been validated, with addresses whose fields have no signs and no leading
-- zeros, the loop of `IPIsInSubnetCheck` does not fail, whatever the address is.
pub scan_subnets-ok :
    (ip : Option IpAddr) (list : List StorageIpData)
    → All IsPlainEntry list
    → (b : Bool) × (scan_subnets ip list ≡ ok b)
unfolding scan_subnets
scan_subnets-ok ip [] h = (false, refl)
scan_subnets-ok ip (d ∷ list) (h, hs) =
    let (net, parsed) = entry-parse_cidr d h in
    let (b, rest) = scan_subnets-ok ip list hs in
    elim (Bool-cases (contains net ip)) [
      | inl inside ↦ (true, ground arith)
      | inr outside ↦ (b, ground arith)
    ]
