-- ===== src/App/Service/Failures.antt =====
-- internal/app/app.go: what makes `CheckRequest` fail.
use golang_fin.Prelude.{
  String, ◌≡◌, refl, List, Bool, true, false, arith, All, ◌⊎◌, inl, inr, Bool-cases, if◌then◌else◌,
}
use golang_fin.Prelude.Int.{ℤ, ltb_ℤ}
use golang_fin.Std.Net.{parse_ip}
use golang_fin.Errors.{GoError, ok, err}
use golang_fin.StorageData.{StorageIpData, RequestAuth, Context}
use golang_fin.Exec.{Exec, Env, Result-cases, bind-err, pure, ◌>>=◌}
use golang_fin.App.Subnets.{check_list_name}
use golang_fin.App.Subnets.Accepted.{IsPlainEntry, scan_subnets-ok}
use golang_fin.App.Service.{
  App, Stores, ip_is_in_subnet_check, check_request, check_ip_rate, check_password_rate,
  check_login_rate, count_attempt,
}

module _ {S B : Type 0} (a : App S B) (ctx : Context) where
  abbrev listing : Env (Stores S B) → Env S
  listing e = record { state = e.state.storage; log = e.log }

  -- The lists, as the storage returns them, have entries that `ParseCIDR` reads.
  abbrev pub HoldsPlain : Env (Stores S B) → Type 0
  HoldsPlain e =
      (name : String) (list : List StorageIpData)
      → (a.storage.ip_get_all_from_list ctx name (listing e)).0 ≡ ok list
      → All IsPlainEntry list

  -- A list was not returned, or an attempt was not counted.
  abbrev pub StorageFails : GoError → Type 0
  StorageFails x =
      ((name : String) × (e : Env S) × ((a.storage.ip_get_all_from_list ctx name e).0 ≡ err x))
      ⊎ ((key : String) × (e : Env B) × ((a.bucket_storage.increase_and_get_bucket_value ctx key
              e).0
            ≡ err x))

  subnet_check-fails :
      (name ip : String) (e : Env (Stores S B)) (x : GoError)
      → check_list_name name ≡ ok tt
      → HoldsPlain e
      → (ip_is_in_subnet_check a ctx name ip e).0 ≡ err x
      → StorageFails x
  unfolding ip_is_in_subnet_check
  subnet_check-fails name ip e x is_name plain h =
      elim (Result-cases (a.storage.ip_get_all_from_list ctx name (listing e)).0) [
        | inr (y, q) ↦ inl (name, listing e, ground arith)
        | inl (list, q) ↦
            let (b, found) = scan_subnets-ok (parse_ip ip) list (plain name list q) in ground arith
      ]

  count_attempt-fails :
      (base_text key_text key : String) (e : Env (Stores S B)) (x : GoError)
      → (count_attempt a ctx base_text key_text key e).0 ≡ err x
      → StorageFails x
  unfolding count_attempt
  count_attempt-fails base_text key_text key e x h =
      inr (key, record { state = e.state.buckets; log = e.log }, ground arith)

  -- A counter, the refusal above a limit, and else what comes next
  step-fails :
      (base_text key_text key refusal : String) (limit : ℤ)
      (next : Exec (Stores S B) (Bool × String)) (e : Env (Stores S B)) (x : GoError)
      → ((count_attempt a ctx base_text key_text key >>= λ n.
            if ltb_ℤ limit n then pure (false, refusal) else next)
          e).0
        ≡ err x
      → StorageFails x ⊎ ((e' : Env (Stores S B)) × ((next e').0 ≡ err x))
  step-fails base_text key_text key refusal limit next e x h =
      elim (bind-err (count_attempt a ctx base_text key_text key) _ e x h) [
        | inl failed ↦ inl (count_attempt-fails base_text key_text key e x failed)
        | inr (n, _, later) ↦ elim (Bool-cases (ltb_ℤ limit n)) [
          | inl over ↦ ground (arith, over, later)
          | inr under ↦
              inr ((count_attempt a ctx base_text key_text key e).1, ground (arith, under, later))
        ]
      ]

  rate-fails :
      (req : RequestAuth) (e : Env (Stores S B)) (x : GoError)
      → (check_login_rate a ctx req e).0 ≡ err x
      → StorageFails x
  unfolding check_login_rate check_password_rate check_ip_rate
  rate-fails req e x h =
      elim (step-fails _ _ _ "Limited by login rate" a.limits.limit_login
        (check_password_rate a ctx req) e x h) [
          | inl failed ↦ failed
          | inr (e1, h1) ↦
              elim (step-fails _ _ _ "Limited by password rate" a.limits.limit_password
                (check_ip_rate a ctx req) e1 x h1) [
                  | inl failed ↦ failed
                  | inr (e2, h2) ↦
                      elim (step-fails _ _ _ "Limited by IP rate" a.limits.limit_ip
                        (pure (true, "Check successful")) e2 x h2) [
                          | inl failed ↦ failed
                          | inr (e3, h3) ↦ ground (arith, h3)
                        ]
                ]
        ]

  -- When the entries of the lists, as the storage returns them for the two looks, have been validated
  -- and the fields of their addresses have no signs and no leading zeros, `CheckRequest` fails only
  -- with an error that a call of a storage returns: one for a list or one that counts an attempt.
  pub check_request-fails :
      (req : RequestAuth) (e : Env (Stores S B)) (x : GoError)
      → HoldsPlain e
      → HoldsPlain (ip_is_in_subnet_check a ctx "blacklist" req.ip e).1
      → (check_request a ctx req e).0 ≡ err x
      → StorageFails x
  unfolding check_request check_list_name
  check_request-fails req e x plain plain' h =
      let e1 = (ip_is_in_subnet_check a ctx "blacklist" req.ip e).1 in
      let e2 = (ip_is_in_subnet_check a ctx "whitelist" req.ip e1).1 in
      elim (Result-cases (ip_is_in_subnet_check a ctx "blacklist" req.ip e).0) [
        | inr (y, q) ↦ subnet_check-fails "blacklist" req.ip e x refl plain (ground (arith, q, h))
        | inl (black, q) ↦
            elim (Result-cases (ip_is_in_subnet_check a ctx "whitelist" req.ip e1).0) [
              | inr (z, r) ↦
                  subnet_check-fails "whitelist" req.ip e1 x refl plain' (ground (arith, q, r, h))
              | inl (white, r) ↦ rate-fails req e2 x (ground (arith, q, r, h))
            ]
      ]
