-- ===== src/App/Service/Limit.antt =====
-- The promise of the rate limiter: between two flushes, `CheckRequest` accepts at most as many
-- requests for a login, a password or an address as their limits allow.
use golang_fin.Prelude.{
  String, ◌≡◌, ◌≢◌, ◌∙◌, refl, ap, Bool, true, false, ◌&&◌, arith, ◌=~◌, ◌⧺◌, eq_refl,
  eq_false_of_ne, sym, inl, inr, cons-append-ne,
}
use golang_fin.Prelude.Int.{ℤ, ◌⊕◌, ◌≤ℤ◌}
use golang_fin.Errors.{Result, ok, err}
use golang_fin.StorageData.{RequestAuth, Context}
use golang_fin.Exec.{Env}
use golang_fin.Interfaces.Counting.{IsCounting}
use golang_fin.App.Service.{App, Stores, check_login_rate, check_request}
use golang_fin.App.Service.Gate.{check_request_cases}
use golang_fin.App.Service.Check.{
  attempts_of, bump, l_key, p_key, i_key, check_login_rate-grows, check_login_rate-accepts,
}

-- Keys of different kinds are different.
lp_ne : (s t : String) → ("l_" ⧺ s) ≢ ("p_" ⧺ t)
lp_ne s t = cons-append-ne "l" "p" "_" "_" s t (omega arith)

li_ne : (s t : String) → ("l_" ⧺ s) ≢ ("i_" ⧺ t)
li_ne s t = cons-append-ne "l" "i" "_" "_" s t (omega arith)

pi_ne : (s t : String) → ("p_" ⧺ s) ≢ ("i_" ⧺ t)
pi_ne s t = cons-append-ne "p" "i" "_" "_" s t (omega arith)

-- Of the three keys of a request only one is its login's, its password's, its address's.
module _ (req : RequestAuth) (n : ℤ) where
  pub room_p : bump (l_key req) (p_key req) n ≡ n
  room_p = rw (eq_false_of_ne (l_key req) (p_key req) (lp_ne req.login req.password))

  pub room_i : bump (p_key req) (i_key req) (bump (l_key req) (i_key req) n) ≡ n
  room_i = rw (
    eq_false_of_ne (l_key req) (i_key req) (li_ne req.login req.ip),
    eq_false_of_ne (p_key req) (i_key req) (pi_ne req.password req.ip),
  )

  count_l :
      bump (i_key req) (l_key req) (bump (p_key req) (l_key req) (bump (l_key req) (l_key req) n))
      ≡ n ⊕ 1
  count_l = rw (
    eq_refl (l_key req),
    eq_false_of_ne (p_key req) (l_key req) (λ e. lp_ne req.login req.password (sym e)),
    eq_false_of_ne (i_key req) (l_key req) (λ e. li_ne req.login req.ip (sym e)),
  )

  count_p :
      bump (i_key req) (p_key req) (bump (p_key req) (p_key req) (bump (l_key req) (p_key req) n))
      ≡ n ⊕ 1
  count_p = rw (
    eq_refl (p_key req),
    eq_false_of_ne (l_key req) (p_key req) (lp_ne req.login req.password),
    eq_false_of_ne (i_key req) (p_key req) (λ e. pi_ne req.password req.ip (sym e)),
  )

  count_i :
      bump (i_key req) (i_key req) (bump (p_key req) (i_key req) (bump (l_key req) (i_key req) n))
      ≡ n ⊕ 1
  count_i = rw (
    eq_refl (i_key req),
    eq_false_of_ne (l_key req) (i_key req) (li_ne req.login req.ip),
    eq_false_of_ne (p_key req) (i_key req) (pi_ne req.password req.ip),
  )

-- The answer of a request that passed all three counters.
abbrev pub is_successful : Result (Bool × String) → Bool
is_successful (err x) = false
is_successful (ok (passed, message)) = passed && message =~ "Check successful"

successful-eq :
    (r : Result (Bool × String)) → is_successful r ≡ true → (m : String) × (r ≡ ok (true, m))
successful-eq (ok (true, m)) h = (m, refl)
successful-eq (ok (false, m)) h = cc
successful-eq (err x) h = cc

module _ {S B : Type 0} (a : App S B) (count : B → String → ℤ)
    (laws : IsCounting a.bucket_storage count) where
  abbrev held : Env (Stores S B) → String → ℤ
  held = attempts_of count

  -- A counter never falls while requests are checked.
  pub check_request-grows :
      (ctx : Context) (req : RequestAuth) (e : Env (Stores S B)) (j : String)
      → held e j ≤ℤ held (check_request a ctx req e).1 j
  check_request-grows ctx req e j =
      let (e', same, cases) = check_request_cases a ctx req e in
      let kept : held e' j ≡ held e j = ap (λ (b : B). count b j) same in
      let stays : held e j ≤ℤ held e' j = rw kept (omega arith) in
      elim cases [
        | inl (x, q) ↦ rw q stays
        | inr (inl q) ↦ rw q stays
        | inr (inr (inl q)) ↦ rw q stays
        | inr (inr (inr q)) ↦ rw q (omega (arith, check_login_rate-grows a count laws ctx req e' j))
      ]

  module _ (ctx : Context) (req : RequestAuth) (e : Env (Stores S B)) where
    -- A request that passed found room in its three counters and has counted in each of them once.
    pub record Passed : Type 0 where
      pub login_room : (held e ("l_" ⧺ req.login) ⊕ 1) ≤ℤ a.limits.limit_login
      pub password_room : (held e ("p_" ⧺ req.password) ⊕ 1) ≤ℤ a.limits.limit_password
      pub ip_room : (held e ("i_" ⧺ req.ip) ⊕ 1) ≤ℤ a.limits.limit_ip
      pub login_count :
          held (check_request a ctx req e).1 ("l_" ⧺ req.login) ≡ held e ("l_" ⧺ req.login) ⊕ 1
      pub password_count :
          held (check_request a ctx req e).1 ("p_" ⧺ req.password)
          ≡ held e ("p_" ⧺ req.password) ⊕ 1
      pub ip_count : held (check_request a ctx req e).1 ("i_" ⧺ req.ip) ≡ held e ("i_" ⧺ req.ip) ⊕ 1

    not_passed :
        {r : Result (Bool × String)} {e' : Env (Stores S B)}
        → check_request a ctx req e ≡ (r, e')
        → is_successful (check_request a ctx req e).0 ≡ true
        → is_successful r ≡ false
        → ⊥
    not_passed q h f =
        cc (ap (λ (o : Result (Bool × String) × Env (Stores S B)). is_successful o.0) q)

    passed_login :
        (e' : Env (Stores S B))
        → e'.state.buckets ≡ e.state.buckets
        → check_request a ctx req e ≡ check_login_rate a ctx req e'
        → is_successful (check_request a ctx req e).0 ≡ true
        → Passed
    passed_login e' same q h =
        let (m, passed) = successful-eq (check_login_rate a ctx req e').0 (rw q at h) in
        let (l_room, p_room, i_room, counted) =
          check_login_rate-accepts a count laws ctx req e' m passed in
        let kept : (j : String) → held e' j ≡ held e j = λ j. ap (λ (b : B). count b j) same in
        let more : (j : String) → held e' j ⊕ 1 ≡ held e j ⊕ 1 =
          λ j. ap (λ (z : ℤ). z ⊕ 1) (kept j) in
        let moved : (j : String)
            → held (check_request a ctx req e).1 j ≡ held (check_login_rate a ctx req e').1 j =
          λ j. ap (λ (o : Result (Bool × String) × Env (Stores S B)). held o.1 j) q in
        record {
          login_room = rw (kept (l_key req)) at l_room;
          password_room =
              rw (kept (p_key req)) at (rw (room_p req (held e' (p_key req))) at p_room);
          ip_room = rw (kept (i_key req)) at (rw (room_i req (held e' (i_key req))) at i_room);
          login_count =
              moved (l_key req)
              ∙ counted (l_key req)
              ∙ count_l req (held e' (l_key req))
              ∙ more (l_key req);
          password_count =
              moved (p_key req)
              ∙ counted (p_key req)
              ∙ count_p req (held e' (p_key req))
              ∙ more (p_key req);
          ip_count =
              moved (i_key req)
              ∙ counted (i_key req)
              ∙ count_i req (held e' (i_key req))
              ∙ more (i_key req);
        }

    pub check_request-Passed : is_successful (check_request a ctx req e).0 ≡ true → Passed
    check_request-Passed h =
        let (e', same, cases) = check_request_cases a ctx req e in
        elim cases [
          | inl (x, q) ↦ absurd (not_passed q h refl)
          | inr (inl q) ↦ absurd (not_passed q h refl)
          | inr (inr (inl q)) ↦ absurd (not_passed q h refl)
          | inr (inr (inr q)) ↦ passed_login e' same q h
        ]
