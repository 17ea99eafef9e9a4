-- ===== src/App/Subnets/Tests.antt =====
-- The loop of `IPIsInSubnetCheck` on concrete lists, and its theorem at such a list.
use golang_fin.Prelude.{String, ◌≡◌, refl, true, false, List, [], ◌∷◌}
use golang_fin.Prelude.Int.{pos}
use golang_fin.Std.Net.{parse_ip, parse_cidr, contains}
use golang_fin.Std.Strconv.{itoa}
use golang_fin.Errors.{ok, err, cidr_error}
use golang_fin.StorageData.{StorageIpData}
use golang_fin.App.Subnets.{cidr_text, scan_subnets}
use golang_fin.App.Subnets.Laws.{Means, scan_subnets-Means}

abbrev entry : String → StorageIpData
entry ip = record { ip = ip; mask = pos 24; id = pos 0 }

abbrev networks : List StorageIpData
networks = entry "10.0.0.0" ∷ entry "10.0.1.0" ∷ []

scans : Unit {0}
unfolding scan_subnets cidr_text itoa parse_ip parse_cidr contains
scans = tt

scan_tests :
    (scan_subnets (parse_ip "10.0.1.77") networks ≡ ok true)
    × (scan_subnets (parse_ip "10.0.2.77") networks ≡ ok false)
    × (scan_subnets (parse_ip "10.0.1.77") (entry "010.0.0.0" ∷ networks)
        ≡ err (cidr_error "010.0.0.0/24"))
unfolding scans
scan_tests = (refl, refl, refl)

scan_subnets-Means_example :
    Means (parse_ip "10.0.1.77") networks (scan_subnets (parse_ip "10.0.1.77") networks)
scan_subnets-Means_example = scan_subnets-Means (parse_ip "10.0.1.77") networks
