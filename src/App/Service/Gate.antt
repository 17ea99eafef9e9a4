-- ===== src/App/Service/Gate.antt =====
-- The two lists in front of the counters of `CheckRequest`.
use golang_fin.Prelude.{String, ◌≡◌, ◌∙◌, Bool, true, false, arith, ◌⊎◌, inl, inr, if◌then◌else◌}
use golang_fin.Errors.{GoError, Result, ok, err}
use golang_fin.StorageData.{RequestAuth, Context}
use golang_fin.Exec.{Exec, Env, pure, catch, ◌>>=◌, Result-cases}
use golang_fin.App.Subnets.{check_list_name}
use golang_fin.App.Service.{
  App, Stores, fail_with, ip_is_in_subnet_check, check_login_rate, check_request,
}

module _ {S B : Type 0} (a : App S B) (ctx : Context) where
  abbrev Outcome : Type 0
  Outcome = Result (Bool × String) × Env (Stores S B)

  -- The lists are only read.
  subnet_check-buckets :
      (listname ip : String) (e : Env (Stores S B))
      → (ip_is_in_subnet_check a ctx listname ip e).1.state.buckets ≡ e.state.buckets
  unfolding ip_is_in_subnet_check check_list_name
  subnet_check-buckets listname ip e = ground arith

  module _ (listname ip : String) (answer : Bool × String)
      (next : Exec (Stores S B) (Bool × String)) (e : Env (Stores S B)) where
    abbrev gate : Outcome
    gate =
        (catch (ip_is_in_subnet_check a ctx listname ip)
              (fail_with "CheckRequest IPIsInSubnet error: ")
            >>= λ found. if found then pure answer else next)
          e

    -- An error, the list's answer, or the next step, with the counters as they were.
    abbrev GateCases : Type 0
    GateCases =
        (e' : Env (Stores S B)) × (e'.state.buckets ≡ e.state.buckets)
        × (((x : GoError) × (gate ≡ (err x, e'))) ⊎ (gate ≡ (ok answer, e')) ⊎ (gate ≡ next e'))

    gate_cases : GateCases
    gate_cases = elim (Result-cases (ip_is_in_subnet_check a ctx listname ip e).0) [
      | inl (found, q) ↦ (
        (ip_is_in_subnet_check a ctx listname ip e).1,
        subnet_check-buckets listname ip e,
        ground arith,
      )
      | inr (x, q) ↦ (
        (fail_with {A = Bool} "CheckRequest IPIsInSubnet error: " x
            (ip_is_in_subnet_check a ctx listname ip e).1).1,
        subnet_check-buckets listname ip e,
        inl (x, ground arith),
      )
    ]

  -- A `CheckRequest` fails, is answered by a list, or goes on to the counters as it found them.
  abbrev pub CheckCases : RequestAuth → Env (Stores S B) → Type 0
  CheckCases req e =
      (e' : Env (Stores S B)) × (e'.state.buckets ≡ e.state.buckets)
      × (((x : GoError) × (check_request a ctx req e ≡ (err x, e')))
          ⊎ (check_request a ctx req e ≡ (ok (false, "IP is in blacklist"), e'))
          ⊎ (check_request a ctx req e ≡ (ok (true, "IP is in whitelist"), e'))
          ⊎ (check_request a ctx req e ≡ check_login_rate a ctx req e'))

  pub check_request_cases : (req : RequestAuth) (e : Env (Stores S B)) → CheckCases req e
  unfolding check_request
  check_request_cases req e =
      let white =
        gate "whitelist" req.ip (true, "IP is in whitelist") (check_login_rate a ctx req) in
      let (e', same, first) = gate_cases "blacklist" req.ip (false, "IP is in blacklist") white e in
      let (e'', same', second) =
        gate_cases "whitelist" req.ip (true, "IP is in whitelist") (check_login_rate a ctx req)
          e' in
      elim first [
        | inl (x, q) ↦ (e', same, inl (x, q))
        | inr (inl q) ↦ (e', same, inr (inl q))
        | inr (inr q) ↦ (
          e'',
          same' ∙ same,
          elim second [
            | inl (x, r) ↦ inl (x, q ∙ r)
            | inr (inl r) ↦ inr (inr (inl (q ∙ r)))
            | inr (inr r) ↦ inr (inr (inr (q ∙ r)))
          ],
        )
      ]
