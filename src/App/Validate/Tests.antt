-- ===== src/App/Validate/Tests.antt =====
-- Runs of internal/app/validate.go on the inputs of its unit tests, and the theorems at such inputs.
use golang_fin.Prelude.{String, ◌≡◌, refl, ◌≢◌, ◌↔◌, ◌⊎◌, true, false}
use golang_fin.Prelude.Int.{ℤ, pos, negsuc, ◌<ℤ◌}
use golang_fin.Std.Strings.{split}
use golang_fin.Std.Strconv.{atoi, syntax}
use golang_fin.Errors.{
  ok, err, num_error, bad_ip, void_login, void_password, void_ip, void_mask, incorrect_mask,
}
use golang_fin.StorageData.{StorageIpData, RequestAuth}
use golang_fin.App.Validate.{
  check_ip, simple_request_validate, simple_ip_data_validate, check_parts,
}
use golang_fin.App.Validate.Laws.{IsDotted, IsMask, check_ip_iff, request_accepts_iff}
use golang_fin.App.Validate.Entries.{ip_data_iff}

validation : Unit {0}
unfolding check_ip simple_request_validate simple_ip_data_validate check_parts split atoi
validation = tt

abbrev entry : String → ℤ → StorageIpData
entry ip mask = record { ip = ip; mask = mask; id = pos 0 }

request_tests :
    (simple_request_validate "user0" "root" "192.168.64.12"
      ≡ ok (record { login = "user0"; password = "root"; ip = "192.168.64.12" }))
    × (simple_request_validate "" "root" "192.168.64.12" ≡ err void_login)
    × (simple_request_validate "user0" "" "192.168.64.12" ≡ err void_password)
    × (simple_request_validate "user0" "root" "" ≡ err bad_ip)
    × (simple_request_validate "user0" "root" "192.168.256.12" ≡ err bad_ip)
unfolding validation
request_tests = (refl, refl, refl, refl, refl)

ip_data_tests :
    (simple_ip_data_validate (entry "10.0.0.0" (pos 8)) false ≡ ok tt)
    × (simple_ip_data_validate (entry "10.0.0.0" (pos 0)) false ≡ err void_mask)
    × (simple_ip_data_validate (entry "10.0.0.0" (pos 32)) false ≡ err incorrect_mask)
    × (simple_ip_data_validate (entry "10.0.0.0" (negsuc 0)) false ≡ err incorrect_mask)
    × (simple_ip_data_validate (entry "10.0.0.x" (pos 8)) false ≡ err (num_error "x" syntax))
    × (simple_ip_data_validate (entry "ALL" (pos 0)) true ≡ ok tt)
    × (simple_ip_data_validate (entry "" (pos 0)) true ≡ err void_ip)
unfolding validation
ip_data_tests = (refl, refl, refl, refl, refl, refl, refl)

check_ip_iff_example : (check_ip "10.0.0.7" (pos 0) (pos 255) ≡ ok tt) ↔ IsDotted "10.0.0.7"
check_ip_iff_example = check_ip_iff "10.0.0.7"

request_accepts_iff_example :
    (simple_request_validate "u" "p" "10.0.0.7"
      ≡ ok (record { login = "u"; password = "p"; ip = "10.0.0.7" }))
    ↔ (IsDotted "10.0.0.7"
        × (◌≢◌ {A = String} "u" "")
        × (◌≢◌ {A = String} "p" "")
        × (◌≡◌ {A = RequestAuth}
            (record { login = "u"; password = "p"; ip = "10.0.0.7" })
            (record { login = "u"; password = "p"; ip = "10.0.0.7" })))
request_accepts_iff_example =
    request_accepts_iff "u" "p" "10.0.0.7" (record { login = "u"; password = "p"; ip = "10.0.0.7" })

ip_data_iff_example :
    ((simple_ip_data_validate (entry "10.0.0.0" (pos 32)) false ≡ ok tt)
      ↔ (IsDotted "10.0.0.0" × IsMask (pos 32)))
    × ((simple_ip_data_validate (entry "10.0.0.0" (pos 32)) false ≡ err incorrect_mask) ↔ (
        (check_ip "10.0.0.0" (pos 0) (pos 255) ≡ err incorrect_mask)
        ⊎ (IsDotted "10.0.0.0" × (pos 32 ≡ pos 0) × (incorrect_mask ≡ void_mask))
        ⊎ (IsDotted "10.0.0.0"
            × (pos 32 ≢ pos 0)
            × ((pos 32 <ℤ pos 0) ⊎ (pos 31 <ℤ pos 32))
            × (incorrect_mask ≡ incorrect_mask))))
    × (simple_ip_data_validate (entry "10.0.0.0" (pos 32)) false ≢ err void_ip)
ip_data_iff_example = ip_data_iff (entry "10.0.0.0" (pos 32)) incorrect_mask
