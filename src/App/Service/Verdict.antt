-- ===== src/App/Service/Verdict.antt =====
-- The verdict of `CheckRequest`: which counter it is about, and what it counts on the way.
use golang_fin.Prelude.{
  String, ◌≡◌, ap, subst, fun_ext, sym, ◌∙◌, Bool, true, false, arith, if◌then◌else◌, ◌⊎◌, inl, inr,
  Bool-cases,
}
use golang_fin.Prelude.Int.{ℤ, ◌⊕◌, ltb_ℤ, ◌≤ℤ◌, ◌<ℤ◌}
use golang_fin.Errors.{GoError, Result, ok, err}
use golang_fin.StorageData.{RequestAuth, Context}
use golang_fin.Exec.{Exec, Env, pure, ◌>>=◌, Result-cases}
use golang_fin.Interfaces.Counting.{IsCounting}
use golang_fin.App.Service.{
  App, Stores, count_attempt, check_ip_rate, check_password_rate, check_login_rate, check_request,
}
use golang_fin.App.Service.Check.{
  bump, attempts_of, l_key, p_key, i_key, count_attempt-value, count_attempt-count,
}
use golang_fin.App.Service.Gate.{check_request_cases}
use golang_fin.App.Service.Limit.{room_p, room_i}

err_not_ok : {A : Type 0} (x : GoError) (v : A) → err x ≡ ok v → ⊥
err_not_ok x v h = cc

ok_same : {A : Type 0} (v w : A) → ok v ≡ ok w → v ≡ w
ok_same v w h = cc

abbrev first_of : {A T : Type 0} → A × T → A
first_of (r, t) = r

module _ {S B : Type 0} (a : App S B) (count : B → String → ℤ)
    (laws : IsCounting a.bucket_storage count) where
  abbrev held : Env (Stores S B) → String → ℤ
  held = attempts_of count

  -- After `e` the counter of the key alone has been counted up.
  abbrev Counted : String → Env (Stores S B) → Env (Stores S B) → Type 0
  Counted key e e' = (j : String) → held e' j ≡ bump key j (held e j)

  module _ (ctx : Context) (base_text key_text key : String) (limit : ℤ) (refusal : String)
      (next : Exec (Stores S B) (Bool × String)) (e : Env (Stores S B)) where
    abbrev step : Result (Bool × String) × Env (Stores S B)
    step =
        (count_attempt a ctx base_text key_text key >>= λ n.
        if ltb_ℤ limit n then pure (false, refusal) else next)
          e

    abbrev after : Env (Stores S B)
    after = (count_attempt a ctx base_text key_text key e).1

    value : (n : ℤ) → (count_attempt a ctx base_text key_text key e).0 ≡ ok n → n ≡ held e key ⊕ 1
    value n q = count_attempt-value a count laws ctx base_text key_text key e n q

    step_verdict :
        (v : Bool × String)
        → step.0 ≡ ok v
        → (e1 : Env (Stores S B)) × Counted key e e1
          × (((limit <ℤ held e key ⊕ 1) × (v ≡ (false, refusal)) × (step.1 ≡ e1))
              ⊎ ((held e key ⊕ 1 ≤ℤ limit) × ((next e1).0 ≡ ok v) × (step.1 ≡ (next e1).1)))
    step_verdict v h = elim (Result-cases (count_attempt a ctx base_text key_text key e).0) [
      | inl (n, q) ↦ (
        after,
        λ j. count_attempt-count a count laws ctx base_text key_text key e n j q,
        elim (Bool-cases (ltb_ℤ limit n)) [
          | inl over ↦ inl (ground (arith, value n q), ground arith, ground arith)
          | inr within ↦ inr (ground (arith, value n q), ground arith, ground arith)
        ],
      )
      | inr (x, q) ↦ absurd (ground arith)
    ]

  -- The verdict on a request that no list answers, by the counters before it: the first counter that
  -- is full refuses it, and only the counters up to that one have been counted up.
  abbrev pub Decided : RequestAuth → Bool × String → (String → ℤ) → (String → ℤ) → Type 0
  Decided req v n n' =
      let l = n (l_key req) ⊕ 1 in
      let p = n (p_key req) ⊕ 1 in
      let i = n (i_key req) ⊕ 1 in
      ((a.limits.limit_login <ℤ l)
        × (v ≡ (false, "Limited by login rate"))
        × ((j : String) → n' j ≡ bump (l_key req) j (n j)))
      ⊎ ((l ≤ℤ a.limits.limit_login)
          × (a.limits.limit_password <ℤ p)
          × (v ≡ (false, "Limited by password rate"))
          × ((j : String) → n' j ≡ bump (p_key req) j (bump (l_key req) j (n j))))
      ⊎ ((l ≤ℤ a.limits.limit_login)
          × (p ≤ℤ a.limits.limit_password)
          × (a.limits.limit_ip <ℤ i)
          × (v ≡ (false, "Limited by IP rate"))
          × ((j : String)
              → n' j ≡ bump (i_key req) j (bump (p_key req) j (bump (l_key req) j (n j)))))
      ⊎ ((l ≤ℤ a.limits.limit_login)
          × (p ≤ℤ a.limits.limit_password)
          × (i ≤ℤ a.limits.limit_ip)
          × (v ≡ (true, "Check successful"))
          × ((j : String)
              → n' j ≡ bump (i_key req) j (bump (p_key req) j (bump (l_key req) j (n j)))))

  -- The same from the counter of the address on, and from that of the password on.
  abbrev IpDecided : RequestAuth → Bool × String → Env (Stores S B) → Env (Stores S B) → Type 0
  IpDecided req v e e' =
      (((a.limits.limit_ip <ℤ held e (i_key req) ⊕ 1) × (v ≡ (false, "Limited by IP rate")))
        ⊎ ((held e (i_key req) ⊕ 1 ≤ℤ a.limits.limit_ip) × (v ≡ (true, "Check successful"))))
      × ((j : String) → held e' j ≡ bump (i_key req) j (held e j))

  abbrev PasswordDecided :
      RequestAuth → Bool × String → Env (Stores S B) → Env (Stores S B) → Type 0
  PasswordDecided req v e e' =
      ((a.limits.limit_password <ℤ held e (p_key req) ⊕ 1)
        × (v ≡ (false, "Limited by password rate"))
        × ((j : String) → held e' j ≡ bump (p_key req) j (held e j)))
      ⊎ ((held e (p_key req) ⊕ 1 ≤ℤ a.limits.limit_password)
          × ((e1 : Env (Stores S B)) × ((j : String) → held e1 j ≡ bump (p_key req) j (held e j))
              × IpDecided req v e1 e'))

  module _ (ctx : Context) (req : RequestAuth) (v : Bool × String) where
    ip_verdict :
        (e : Env (Stores S B))
        → (check_ip_rate a ctx req e).0 ≡ ok v
        → IpDecided req v e (check_ip_rate a ctx req e).1
    unfolding check_ip_rate
    ip_verdict e h =
        let (e1, c1, first) =
          step_verdict ctx _ _ (i_key req) a.limits.limit_ip _ (pure (true, "Check successful")) e v
            h in
        elim first [
          | inl (over, refused, same) ↦ (inl (over, refused), λ j. rw same (c1 j))
          | inr (within, passed, same) ↦ (inr (within, ground arith), λ j. rw same (c1 j))
        ]

    password_verdict :
        (e : Env (Stores S B))
        → (check_password_rate a ctx req e).0 ≡ ok v
        → PasswordDecided req v e (check_password_rate a ctx req e).1
    unfolding check_password_rate
    password_verdict e h =
        let (e1, c1, first) =
          step_verdict ctx _ _ (p_key req) a.limits.limit_password _ (check_ip_rate a ctx req) e v
            h in
        elim first [
          | inl (over, refused, same) ↦ inl (over, refused, λ j. rw same (c1 j))
          | inr (within, passed, same) ↦ inr (within, (e1, c1, rw same (ip_verdict e1 passed)))
        ]

    -- What the later counters decide is what they decide before the login is counted, since the keys
    -- of the three kinds differ.
    later_verdict :
        (e e1 e' : Env (Stores S B))
        → held e (l_key req) ⊕ 1 ≤ℤ a.limits.limit_login
        → ((j : String) → held e1 j ≡ bump (l_key req) j (held e j))
        → PasswordDecided req v e1 e'
        → Decided req v (held e) (held e')
    later_verdict e e1 e' room c1 (inl (over, refused, counted)) = inr (
        inl (
          room,
          (rw (c1 (p_key req), room_p req (held e (p_key req))) at over),
          refused,
          λ j. rw (counted j, c1 j),
        ))
    later_verdict e e1 e' room c1 (inr (within, (e2, c2, (inl (over, refused), counted)))) = inr (
        inr (
          inl (
            room,
            (rw (c1 (p_key req), room_p req (held e (p_key req))) at within),
            (rw (c2 (i_key req), c1 (i_key req), room_i req (held e (i_key req))) at over),
            refused,
            λ j. rw (counted j, c2 j, c1 j),
          )))
    later_verdict e e1 e' room c1 (inr (within, (e2, c2, (inr (fits, passed), counted)))) = inr (
        inr (
          inr (
            room,
            (rw (c1 (p_key req), room_p req (held e (p_key req))) at within),
            (rw (c2 (i_key req), c1 (i_key req), room_i req (held e (i_key req))) at fits),
            passed,
            λ j. rw (counted j, c2 j, c1 j),
          )))

    login_verdict :
        (e : Env (Stores S B))
        → (check_login_rate a ctx req e).0 ≡ ok v
        → Decided req v (held e) (held (check_login_rate a ctx req e).1)
    unfolding check_login_rate
    login_verdict e h =
        let (e1, c1, first) =
          step_verdict ctx _ _ (l_key req) a.limits.limit_login _ (check_password_rate a ctx req) e
            v h in
        elim first [
          | inl (over, refused, same) ↦ inl (over, refused, λ j. rw same (c1 j))
          | inr (within, passed, same) ↦ rw same (
              later_verdict e e1 (check_password_rate a ctx req e1).1 within c1
                (password_verdict e1 passed))
        ]

    -- A `CheckRequest` that answers is answered by a list, and then counts nothing, or by the
    -- counters: the first of login, password and address that has reached its limit refuses it, else it
    -- passes, and exactly the counters up to the deciding one have been counted up by one.
    pub check_request-verdict :
        (e : Env (Stores S B))
        → (check_request a ctx req e).0 ≡ ok v
        → (((v ≡ (false, "IP is in blacklist")) ⊎ (v ≡ (true, "IP is in whitelist")))
            × ((j : String) → held (check_request a ctx req e).1 j ≡ held e j))
          ⊎ Decided req v (held e) (held (check_request a ctx req e).1)
    check_request-verdict e h =
        let (e', same, cases) = check_request_cases a ctx req e in
        let kept : (j : String) → held e' j ≡ held e j = λ j. ap (λ (b : B). count b j) same in
        elim cases [
          | inl (x, q) ↦ absurd (err_not_ok x v (sym (ap first_of q) ∙ h))
          | inr (inl q) ↦ inl (inl (ok_same v _ (sym h ∙ ap first_of q)), λ j. rw q (kept j))
          | inr (inr (inl q)) ↦ inl (inr (ok_same v _ (sym h ∙ ap first_of q)), λ j. rw q (kept j))
          | inr (inr (inr q)) ↦ inr (
              subst (λ (n : String → ℤ). Decided req v n (held (check_request a ctx req e).1))
                (fun_ext kept)
                (subst
                  (λ (o : Result (Bool × String) × Env (Stores S B)).
                    Decided req v (held e') (held o.1))
                  (sym q) (login_verdict e' (sym (ap first_of q) ∙ h))))
        ]
