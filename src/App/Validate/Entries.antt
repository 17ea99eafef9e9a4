-- ===== src/App/Validate/Entries.antt =====
-- All results of `SimpleIPDataValidate` for an entry of a list, with its errors.
use golang_fin.Prelude.{
  String, List, [], ◌∷◌, ◌≡◌, refl, ◌≢◌, ◌↔◌, ◌⊎◌, true, false, arith, ◌=~◌, inl, inr,
}
use golang_fin.Prelude.Int.{ℤ, pos, eqb_ℤ, eqb_ℤ_iff, ◌<ℤ◌}
use golang_fin.Std.Strings.{split}
use golang_fin.Std.Strconv.{Parsed, value, failed, atoi}
use golang_fin.Errors.{void_ip, GoError, Result, ok, err, void_mask, incorrect_mask}
use golang_fin.StorageData.{StorageIpData}
use golang_fin.App.Validate.{
  check_part, check_parts, check_ip, ip_data_switch, simple_ip_data_validate,
}
use golang_fin.App.Validate.Laws.{
  IsDotted, IsMask, IsDotted-ne-empty, check_ip_iff, ip_data_accepts_iff,
}

ip_data_switch-err :
    (r : Result Unit) (d : StorageIpData) (e : GoError)
    → ip_data_switch r d false ≡ err e
    → (r ≡ err e)
      ⊎ ((r ≡ ok tt)
          × (((d.ip =~ "") ≡ true)
              ⊎ ((eqb_ℤ d.mask (pos 0) ≡ true) × (e ≡ void_mask))
              ⊎ ((eqb_ℤ d.mask (pos 0) ≡ false)
                  × ((d.mask <ℤ pos 0) ⊎ (pos 31 <ℤ d.mask))
                  × (e ≡ incorrect_mask))))
unfolding ip_data_switch
ip_data_switch-err (ok _) d e h = ground arith
ip_data_switch-err (err x) d e h = inl h

ip_data_error :
    (d : StorageIpData) (e : GoError)
    → simple_ip_data_validate d false ≡ err e
    → (check_ip d.ip (pos 0) (pos 255) ≡ err e)
      ⊎ (IsDotted d.ip × (d.mask ≡ pos 0) × (e ≡ void_mask))
      ⊎ (IsDotted d.ip
          × (d.mask ≢ pos 0)
          × ((d.mask <ℤ pos 0) ⊎ (pos 31 <ℤ d.mask))
          × (e ≡ incorrect_mask))
unfolding simple_ip_data_validate
ip_data_error d e h = elim (ip_data_switch-err _ d e h) [
  | inl bad ↦ inl bad
  | inr (accepted, later) ↦
      let dotted = (check_ip_iff d.ip).0 accepted in
      ground (arith, IsDotted-ne-empty d.ip dotted, eqb_ℤ_iff d.mask (pos 0), dotted)
]

ip_data_switch_errors :
    (d : StorageIpData) (e : GoError)
    → (d.ip =~ "") ≡ false
    → ((d.mask ≡ pos 0) × (e ≡ void_mask))
      ⊎ ((d.mask ≢ pos 0) × ((d.mask <ℤ pos 0) ⊎ (pos 31 <ℤ d.mask)) × (e ≡ incorrect_mask))
    → ip_data_switch (ok tt) d false ≡ err e
unfolding ip_data_switch
ip_data_switch_errors d e ne h = ground (arith, eqb_ℤ_iff d.mask (pos 0))

ip_data_refuses :
    (d : StorageIpData) (e : GoError)
    → (check_ip d.ip (pos 0) (pos 255) ≡ err e)
      ⊎ (IsDotted d.ip × (d.mask ≡ pos 0) × (e ≡ void_mask))
      ⊎ (IsDotted d.ip
          × (d.mask ≢ pos 0)
          × ((d.mask <ℤ pos 0) ⊎ (pos 31 <ℤ d.mask))
          × (e ≡ incorrect_mask))
    → simple_ip_data_validate d false ≡ err e
unfolding simple_ip_data_validate
ip_data_refuses d e (inl bad) = rw bad (unfold ip_data_switch in refl)
ip_data_refuses d e (inr (inl (dotted, zero_mask, void))) =
    rw ((check_ip_iff d.ip).1 dotted)
      (ip_data_switch_errors d e (IsDotted-ne-empty d.ip dotted) (inl (zero_mask, void)))
ip_data_refuses d e (inr (inr (dotted, nonzero, range, incorrect))) =
    rw ((check_ip_iff d.ip).1 dotted)
      (ip_data_switch_errors d e (IsDotted-ne-empty d.ip dotted) (inr (nonzero, range, incorrect)))

check_part-ne-void_ip :
    (p : String) (r : Parsed ℤ) (minimal maximal : ℤ) → check_part minimal maximal p r ≢ err void_ip
unfolding check_part
check_part-ne-void_ip p (failed e) minimal maximal h = cc (h)
check_part-ne-void_ip p (value z) minimal maximal h = ground (arith, h)

check_parts-ne-void_ip :
    (ps : List String) (minimal maximal : ℤ) → check_parts minimal maximal ps ≢ err void_ip
unfolding check_parts
check_parts-ne-void_ip [] minimal maximal h = cc (h)
check_parts-ne-void_ip (p ∷ ps) minimal maximal h = ground (
  arith,
  check_part-ne-void_ip p (atoi p) minimal maximal,
  check_parts-ne-void_ip ps minimal maximal,
)

check_ip-ne-void_ip :
    (ip : String) (minimal maximal : ℤ) → check_ip ip minimal maximal ≢ err void_ip
unfolding check_ip
check_ip-ne-void_ip ip minimal maximal h =
    ground (arith, check_parts-ne-void_ip (split b'.' ip) minimal maximal, h)

ip_data-ne-void_ip : (d : StorageIpData) → simple_ip_data_validate d false ≢ err void_ip
ip_data-ne-void_ip d h = elim (ip_data_error d void_ip h) [
  | inl bad ↦ check_ip-ne-void_ip d.ip (pos 0) (pos 255) bad
  | inr (inl (dotted, zero_mask, void)) ↦ cc (void)
  | inr (inr (dotted, nonzero, range, incorrect)) ↦ cc (incorrect)
]

-- `SimpleIPDataValidate` without the flag for whole lists accepts exactly a dotted address with a mask
-- from 1 to 31. It fails exactly with the error of `checkIP`, or after that with `ErrVoidMask` for a
-- mask of 0 or `ErrIncorrectMask` for another one out of range, and never
-- with `ErrVoidIP`.
pub ip_data_iff :
    (d : StorageIpData) (e : GoError)
    → ((simple_ip_data_validate d false ≡ ok tt) ↔ (IsDotted d.ip × IsMask d.mask))
      × ((simple_ip_data_validate d false ≡ err e) ↔ (
          (check_ip d.ip (pos 0) (pos 255) ≡ err e)
          ⊎ (IsDotted d.ip × (d.mask ≡ pos 0) × (e ≡ void_mask))
          ⊎ (IsDotted d.ip
              × (d.mask ≢ pos 0)
              × ((d.mask <ℤ pos 0) ⊎ (pos 31 <ℤ d.mask))
              × (e ≡ incorrect_mask))))
      × (simple_ip_data_validate d false ≢ err void_ip)
ip_data_iff d e =
    (ip_data_accepts_iff d, (ip_data_error d e, ip_data_refuses d e), ip_data-ne-void_ip d)
