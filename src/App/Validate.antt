-- ===== src/App/Validate.antt =====
-- internal/app/validate.go
pub mod Laws
pub mod Entries
mod Tests
use golang_fin.Prelude.{
  String, Bool, true, false, not, ◌&&◌, ◌||◌, List, [], ◌∷◌, length, ◌==◌, ◌=~◌, if◌then◌else◌,
}
use golang_fin.Prelude.Int.{ℤ, pos, ltb_ℤ, eqb_ℤ}
use golang_fin.Std.Strings.{split}
use golang_fin.Std.Strconv.{Parsed, value, failed, atoi}
use golang_fin.Errors.{
  Result, ok, err, num_error, bad_ip, void_login, void_password, void_ip, void_mask, incorrect_mask,
}
use golang_fin.StorageData.{StorageIpData, RequestAuth}

-- The body of the loop in `checkIP`.
unfoldable pub check_part : ℤ → ℤ → String → Parsed ℤ → Result Unit
check_part minimal maximal current_part (failed e) = err (num_error current_part e)
check_part minimal maximal current_part (value int_part) =
    if ltb_ℤ int_part minimal || ltb_ℤ maximal int_part then err bad_ip else ok tt

-- The loop of `checkIP`, left at the first error.
unfoldable pub check_parts : ℤ → ℤ → List String → Result Unit
unfolding check_part
check_parts minimal maximal [] = ok tt
check_parts minimal maximal (current_part ∷ parts) =
    elim (check_part minimal maximal current_part (atoi current_part)) [
      | err e ↦ err e
      | ok _ ↦ check_parts minimal maximal parts
    ]

-- `checkIP`
unfoldable pub check_ip : String → ℤ → ℤ → Result Unit
check_ip ip minimal maximal =
    let parts = split b'.' ip in
    if length parts == 4 then check_parts minimal maximal parts else err bad_ip

-- The switch of `SimpleRequestValidate`.
unfoldable pub request_switch : Result Unit → RequestAuth → Result RequestAuth
request_switch (err e) request = err e
request_switch (ok _) request =
    if request.login =~ ""
    then err void_login
    else if request.password =~ ""
    then err void_password
    else ok request

-- `SimpleRequestValidate`
unfoldable pub simple_request_validate : String → String → String → Result RequestAuth
unfolding request_switch check_ip
simple_request_validate login password ip =
    request_switch (check_ip ip (pos 0) (pos 255))
      (record { login = login; password = password; ip = ip })

-- The switch of `SimpleIPDataValidate`.
unfoldable pub ip_data_switch : Result Unit → StorageIpData → Bool → Result Unit
ip_data_switch (err e) d is_all_request = err e
ip_data_switch (ok _) d is_all_request =
    if d.ip =~ ""
    then err void_ip
    else if eqb_ℤ d.mask (pos 0) && not is_all_request
    then err void_mask
    else if ltb_ℤ d.mask (pos 0) || ltb_ℤ (pos 31) d.mask
    then err incorrect_mask
    else ok tt

-- `SimpleIPDataValidate`
unfoldable pub simple_ip_data_validate : StorageIpData → Bool → Result Unit
unfolding ip_data_switch check_ip
simple_ip_data_validate d is_all_request =
    ip_data_switch (if is_all_request then ok tt else check_ip d.ip (pos 0) (pos 255)) d
      is_all_request
