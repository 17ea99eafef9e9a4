-- ===== src/App/Service/Check.antt =====
-- What one `CheckRequest` does to the counters.
use golang_fin.Prelude.{String, ◌≡◌, Bool, true, false, arith, ◌=~◌, ◌⧺◌, if◌then◌else◌, inl, inr}
use golang_fin.Prelude.Int.{ℤ, ◌⊕◌, ltb_ℤ, ◌≤ℤ◌}
use golang_fin.Errors.{Result, ok}
use golang_fin.StorageData.{RequestAuth, Context}
use golang_fin.Exec.{Exec, Env, pure, ◌>>=◌, Result-cases}
use golang_fin.Interfaces.Counting.{IsCounting}
use golang_fin.App.Service.{
  App, Stores, count_attempt, check_ip_rate, check_password_rate, check_login_rate,
}

abbrev pub bump : String → String → ℤ → ℤ
bump key j n = if key =~ j then n ⊕ 1 else n

-- the counter of a key in a state of the application
abbrev pub attempts_of : {S B : Type 0} → (B → String → ℤ) → Env (Stores S B) → String → ℤ
attempts_of count e key = count e.state.buckets key

abbrev pub l_key : RequestAuth → String
l_key req = "l_" ⧺ req.login

abbrev pub p_key : RequestAuth → String
p_key req = "p_" ⧺ req.password

abbrev pub i_key : RequestAuth → String
i_key req = "i_" ⧺ req.ip

module _ {S B : Type 0} (a : App S B) (count : B → String → ℤ)
    (laws : IsCounting a.bucket_storage count) where
  abbrev attempts : Env (Stores S B) → String → ℤ
  attempts = attempts_of count

  module _ (ctx : Context) (base_text key_text key : String) (e : Env (Stores S B)) where
    pub count_attempt-value :
        (n : ℤ) → (count_attempt a ctx base_text key_text key e).0 ≡ ok n → n ≡ (attempts e key ⊕ 1)
    unfolding count_attempt
    count_attempt-value n h =
        ground (arith, laws.incr_value ctx key (record { state = e.state.buckets; log = e.log }) n)

    pub count_attempt-count :
        (n : ℤ) (j : String)
        → (count_attempt a ctx base_text key_text key e).0 ≡ ok n
        → attempts (count_attempt a ctx base_text key_text key e).1 j ≡ bump key j (attempts e j)
    unfolding count_attempt
    count_attempt-count n j h =
        ground
          (arith, laws.incr_count ctx key (record { state = e.state.buckets; log = e.log }) n j)

    count_attempt-grows :
        (j : String) → attempts e j ≤ℤ attempts (count_attempt a ctx base_text key_text key e).1 j
    unfolding count_attempt
    count_attempt-grows j =
        ground (arith, laws.incr_grows ctx key (record { state = e.state.buckets; log = e.log }) j)

    -- A step that counts a key, is refused above a limit, and else goes on with `next`.
    module _ (limit : ℤ) (refusal : String) (next : Exec (Stores S B) (Bool × String)) where
      abbrev rate_step : Result (Bool × String) × Env (Stores S B)
      rate_step =
          (count_attempt a ctx base_text key_text key >>= λ n.
          if ltb_ℤ limit n then pure (false, refusal) else next)
            e

      abbrev counted : Env (Stores S B)
      counted = (count_attempt a ctx base_text key_text key e).1

      rate_step-grows :
          (j : String)
          → attempts counted j ≤ℤ attempts (next counted).1 j
          → attempts e j ≤ℤ attempts rate_step.1 j
      rate_step-grows j h = ground (arith, count_attempt-grows j)

      rate_step-accepts :
          (m : String)
          → rate_step.0 ≡ ok (true, m)
          → ((attempts e key ⊕ 1) ≤ℤ limit)
            × ((next counted).0 ≡ ok (true, m))
            × (rate_step.1 ≡ (next counted).1)
            × ((j : String) → attempts counted j ≡ bump key j (attempts e j))
      rate_step-accepts m h = elim (Result-cases (count_attempt a ctx base_text key_text key e).0) [
        | inl (n, q) ↦ (
          ground (arith, count_attempt-value n),
          ground arith,
          ground arith,
          λ j. count_attempt-count n j q,
        )
        | inr (x, q) ↦ ground arith
      ]

  module _ (ctx : Context) (req : RequestAuth) where
    check_ip_rate-grows :
        (e : Env (Stores S B)) (j : String)
        → attempts e j ≤ℤ attempts (check_ip_rate a ctx req e).1 j
    unfolding check_ip_rate
    check_ip_rate-grows e j =
        rate_step-grows ctx _ _ (i_key req) e a.limits.limit_ip _ (pure (true, "Check successful"))
          j (omega arith)

    check_password_rate-grows :
        (e : Env (Stores S B)) (j : String)
        → attempts e j ≤ℤ attempts (check_password_rate a ctx req e).1 j
    unfolding check_password_rate
    check_password_rate-grows e j =
        rate_step-grows ctx _ _ (p_key req) e a.limits.limit_password _ (check_ip_rate a ctx req) j
          (check_ip_rate-grows _ j)

    pub check_login_rate-grows :
        (e : Env (Stores S B)) (j : String)
        → attempts e j ≤ℤ attempts (check_login_rate a ctx req e).1 j
    unfolding check_login_rate
    check_login_rate-grows e j =
        rate_step-grows ctx _ _ (l_key req) e a.limits.limit_login _ (check_password_rate a ctx req)
          j (check_password_rate-grows _ j)

    check_ip_rate-accepts :
        (e : Env (Stores S B)) (m : String)
        → (check_ip_rate a ctx req e).0 ≡ ok (true, m)
        → ((attempts e (i_key req) ⊕ 1) ≤ℤ a.limits.limit_ip)
          × ((j : String)
              → attempts (check_ip_rate a ctx req e).1 j ≡ bump (i_key req) j (attempts e j))
    unfolding check_ip_rate
    check_ip_rate-accepts e m h =
        let (room, _, same, counted) =
          rate_step-accepts ctx _ _ (i_key req) e a.limits.limit_ip _
            (pure (true, "Check successful")) m h in
        (room, λ j. rw same (counted j))

    check_password_rate-accepts :
        (e : Env (Stores S B)) (m : String)
        → (check_password_rate a ctx req e).0 ≡ ok (true, m)
        → ((attempts e (p_key req) ⊕ 1) ≤ℤ a.limits.limit_password)
          × ((bump (p_key req) (i_key req) (attempts e (i_key req)) ⊕ 1) ≤ℤ a.limits.limit_ip)
          × ((j : String)
              → attempts (check_password_rate a ctx req e).1 j
                ≡ bump (i_key req) j (bump (p_key req) j (attempts e j)))
    unfolding check_password_rate
    check_password_rate-accepts e m h =
        let (room, later, same, counted) =
          rate_step-accepts ctx _ _ (p_key req) e a.limits.limit_password _
            (check_ip_rate a ctx req) m h in
        let (ip_room, ip_counted) = check_ip_rate-accepts _ m later in
        (room, rw (counted (i_key req)) at ip_room, λ j. rw (same, ip_counted j, counted j))

    pub check_login_rate-accepts :
        (e : Env (Stores S B)) (m : String)
        → (check_login_rate a ctx req e).0 ≡ ok (true, m)
        → ((attempts e (l_key req) ⊕ 1) ≤ℤ a.limits.limit_login)
          × ((bump (l_key req) (p_key req) (attempts e (p_key req)) ⊕ 1) ≤ℤ a.limits.limit_password)
          × (bump (p_key req) (i_key req) (bump (l_key req) (i_key req) (attempts e (i_key req)))
                ⊕ 1
              ≤ℤ a.limits.limit_ip)
          × ((j : String)
              → attempts (check_login_rate a ctx req e).1 j
                ≡ bump (i_key req) j (bump (p_key req) j (bump (l_key req) j (attempts e j))))
    unfolding check_login_rate
    check_login_rate-accepts e m h =
        let (room, later, same, counted) =
          rate_step-accepts ctx _ _ (l_key req) e a.limits.limit_login _
            (check_password_rate a ctx req) m h in
        let (p_room, i_room, p_counted) = check_password_rate-accepts _ m later in
        (
          room,
          rw (counted (p_key req)) at p_room,
          rw (counted (i_key req)) at i_room,
          λ j. rw (same, p_counted j, counted j),
        )
