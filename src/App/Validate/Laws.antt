-- ===== src/App/Validate/Laws.antt =====
-- What internal/app/validate.go accepts, against an independent description of an address.
use golang_fin.Prelude.{
  ℕ, ◌≤◌, String, ◌≡◌, refl, ◌≢◌, ◌↔◌, Bool, true, false, not, ◌&&◌, ◌||◌, subst, eq_false_of_ne,
  List, [], ◌∷◌, arith, length, eq_iff, ◌=~◌, All,
}
use golang_fin.Prelude.Int.{ℤ, pos, negsuc, ltb_ℤ, eqb_ℤ}
use golang_fin.Std.Strings.{split}
use golang_fin.Std.Strconv.{Parsed, value, failed, atoi}
use golang_fin.Errors.{Result, ok, err}
use golang_fin.StorageData.{StorageIpData, RequestAuth}
use golang_fin.App.Validate.{
  check_part, check_parts, check_ip, request_switch, simple_request_validate, ip_data_switch,
  simple_ip_data_validate,
}

-- A text that `Atoi` reads as a number from 0 to 255.
abbrev pub IsPart : String → Type 0
IsPart p = (n : ℕ) × (atoi p ≡ value (pos n)) × (n ≤ 255)

-- Four such texts between three dots.
pub record IsDotted (ip : String) : Type 0 where
  pub four : length (split b'.' ip) ≡ 4
  pub in_range : All IsPart (split b'.' ip)

check_part_iff :
    (p : String) (r : Parsed ℤ)
    → (check_part (pos 0) (pos 255) p r ≡ ok tt) ↔ ((n : ℕ) × (r ≡ value (pos n)) × (n ≤ 255))
unfolding check_part
check_part_iff p (failed e) = (λ h. cc, λ h. cc (h.1))
check_part_iff p (value (pos n)) = (λ h. (n, refl, ground arith), λ h. ground arith)
check_part_iff p (value (negsuc n)) = (λ h. ground arith, λ h. cc (h.1))

check_parts_sound : (ps : List String) → check_parts (pos 0) (pos 255) ps ≡ ok tt → All IsPart ps
unfolding check_parts
check_parts_sound [] h = tt
check_parts_sound (p ∷ ps) h =
    ((check_part_iff p (atoi p)).0 (ground arith), check_parts_sound ps (ground arith))

check_parts_complete : (ps : List String) → All IsPart ps → check_parts (pos 0) (pos 255) ps ≡ ok tt
unfolding check_parts
check_parts_complete [] h = refl
check_parts_complete (p ∷ ps) h =
    rw ((check_part_iff p (atoi p)).1 h.0, check_parts) (check_parts_complete ps h.1)

-- `checkIP` with the bounds 0 and 255 accepts exactly the texts of four numbers from 0 to 255 between
-- three dots, as `Atoi` reads them.
pub check_ip_iff : (ip : String) → (check_ip ip (pos 0) (pos 255) ≡ ok tt) ↔ IsDotted ip
unfolding check_ip
check_ip_iff ip = (
  λ h. record { four = ground arith; in_range = check_parts_sound (split b'.' ip) (ground arith) },
  λ h. ground (arith, check_parts_complete (split b'.' ip)),
)

not-IsDotted_empty : IsDotted "" → ⊥
unfolding split
not-IsDotted_empty h = absurd (omega arith)

pub IsDotted-ne-empty : (ip : String) → IsDotted ip → (ip =~ "") ≡ false
IsDotted-ne-empty ip h = eq_false_of_ne ip "" (λ e. not-IsDotted_empty (subst IsDotted e h))

-- The masks that pass the second and the third test.
abbrev pub IsMask : ℤ → Type 0
IsMask m = (n : ℕ) × (m ≡ pos n) × (1 ≤ n) × (n ≤ 31)

mask_tests : ℤ → Bool
mask_tests m = not (eqb_ℤ m (pos 0)) && not (ltb_ℤ m (pos 0) || ltb_ℤ (pos 31) m)

mask_tests_iff : (m : ℤ) → (mask_tests m ≡ true) ↔ IsMask m
unfolding mask_tests
mask_tests_iff (pos n) = (λ h. (n, refl, ground arith, ground arith), λ h. ground arith)
mask_tests_iff (negsuc n) = (λ h. ground arith, λ h. cc (h.1))

ip_data_switch_iff :
    (d : StorageIpData)
    → (ip_data_switch (ok tt) d false ≡ ok tt)
      ↔ (((d.ip =~ "") ≡ false) × (mask_tests d.mask ≡ true))
unfolding ip_data_switch mask_tests
ip_data_switch_iff d = ground arith

ip_data_switch-ok :
    (r : Result Unit) (d : StorageIpData)
    → ip_data_switch r d false ≡ ok tt
    → (r ≡ ok tt) × (ip_data_switch (ok tt) d false ≡ ok tt)
unfolding ip_data_switch
ip_data_switch-ok (ok _) d h = (refl, h)
ip_data_switch-ok (err e) d h = cc

ip_data_sound :
    (d : StorageIpData) → simple_ip_data_validate d false ≡ ok tt → IsDotted d.ip × IsMask d.mask
unfolding simple_ip_data_validate
ip_data_sound d h =
    let (accepted, passed) = ip_data_switch-ok _ d h in
    (
      (check_ip_iff d.ip).0 accepted,
      (mask_tests_iff d.mask).0 (((ip_data_switch_iff d).0 passed).1),
    )

ip_data_complete :
    (d : StorageIpData) → IsDotted d.ip × IsMask d.mask → simple_ip_data_validate d false ≡ ok tt
unfolding simple_ip_data_validate
ip_data_complete d (dotted, mask) =
    rw ((check_ip_iff d.ip).1 dotted)
      ((ip_data_switch_iff d).1 (IsDotted-ne-empty d.ip dotted, (mask_tests_iff d.mask).1 mask))

-- What is accepted: exactly a dotted address with a mask from 1 to 31.
pub ip_data_accepts_iff :
    (d : StorageIpData)
    → (simple_ip_data_validate d false ≡ ok tt) ↔ (IsDotted d.ip × IsMask d.mask)
ip_data_accepts_iff d = (ip_data_sound d, ip_data_complete d)

ne_of_test : (s : String) → (s =~ "") ≡ false → s ≢ ""
ne_of_test s h = ground (arith, eq_iff s "")

request_switch_iff :
    (r : Result Unit) (q p : RequestAuth)
    → (request_switch r q ≡ ok p)
      ↔ ((r ≡ ok tt) × ((q.login =~ "") ≡ false) × ((q.password =~ "") ≡ false) × (p ≡ q))
unfolding request_switch
request_switch_iff (ok _) q p = ground arith
request_switch_iff (err e) q p = ground arith

-- `SimpleRequestValidate` accepts exactly a login and a password that are not empty with a dotted
-- address, and returns them unchanged.
pub request_accepts_iff :
    (login password ip : String) (r : RequestAuth)
    → (simple_request_validate login password ip ≡ ok r) ↔ (
        IsDotted ip
        × (login ≢ "")
        × (password ≢ "")
        × (r ≡ record { login = login; password = password; ip = ip }))
unfolding simple_request_validate
request_accepts_iff login password ip r =
    let q : RequestAuth = record { login = login; password = password; ip = ip } in
    let iff = request_switch_iff (check_ip ip (pos 0) (pos 255)) q r in
    (
      λ h. (
        (check_ip_iff ip).0 (iff.0 h).0,
        ne_of_test login (iff.0 h).1,
        ne_of_test password (iff.0 h).2,
        (iff.0 h).3,
      ),
      λ h. iff.1 (
        (check_ip_iff ip).1 h.0,
        eq_false_of_ne login "" h.1,
        eq_false_of_ne password "" h.2,
        h.3,
      ),
    )
