-- ===== src/App/Subnets.antt =====
-- internal/app/app.go: `checkListName` and the loop of `IPIsInSubnetCheck`.
pub mod Laws
pub mod Accepted
mod Tests
use golang_fin.Prelude.{
  String, Bool, true, false, ◌&&◌, not, Option, none, some, List, [], ◌∷◌, ◌=~◌, ◌⧺◌, if◌then◌else◌,
}
use golang_fin.Std.Strconv.{itoa}
use golang_fin.Std.Net.{IpAddr, parse_cidr, contains}
use golang_fin.Errors.{Result, ok, err, cidr_error, bad_list_type}
use golang_fin.StorageData.{StorageIpData, white_list_name, black_list_name}

-- `checkListName`
unfoldable pub check_list_name : String → Result Unit
check_list_name listname =
    if not (listname =~ white_list_name) && not (listname =~ black_list_name)
    then err bad_list_type
    else ok tt

-- The text `IP/Mask` of an entry.
unfoldable pub cidr_text : StorageIpData → String
cidr_text d = d.ip ⧺ "/" ⧺ itoa d.mask

-- The loop of `IPIsInSubnetCheck`: the first entry that does not parse or that holds the address.
unfoldable pub scan_subnets : Option IpAddr → List StorageIpData → Result Bool
scan_subnets can_ip [] = ok false
scan_subnets can_ip (current ∷ list) = elim (parse_cidr (cidr_text current)) [
  | none ↦ err (cidr_error (cidr_text current))
  | some subnet ↦
      let rest = scan_subnets can_ip list in if contains subnet can_ip then ok true else rest
]
