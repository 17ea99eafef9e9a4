-- ===== src/App/Service/Window.antt =====
-- A window of the rate limiter: the requests that `CheckRequest` answers between two flushes.
use golang_fin.Prelude.{
  ℕ, ◌+◌, String, ◌≡◌, refl, Bool, true, ◌&&◌, List, [], ◌∷◌, arith, ◌=~◌, ◌⧺◌, if◌then◌else◌,
  eq_iff, ◌⊎◌, inl, inr, Bool-cases, ap,
}
use golang_fin.Prelude.Int.{ℤ, ◌⊕◌, ◌≤ℤ◌, ⊕_parts}
use golang_fin.StorageData.{RequestAuth, Context}
use golang_fin.Exec.{Env}
use golang_fin.Interfaces.Counting.{IsCounting}
use golang_fin.App.Service.{App, Stores, check_request}
use golang_fin.App.Service.Check.{attempts_of}
use golang_fin.App.Service.Limit.{is_successful, Passed, check_request-Passed, check_request-grows}

-- The environment after the requests, and how many of those with a property were let through.
module _ {S B : Type 0} (a : App S B) where
  unfoldable pub serve : List (Context × RequestAuth) → Env (Stores S B) → Env (Stores S B)
  serve [] e = e
  serve ((ctx, req) ∷ reqs) e = serve reqs (check_request a ctx req e).1

  unfoldable pub accepted :
      (RequestAuth → Bool) → List (Context × RequestAuth) → Env (Stores S B) → ℕ
  accepted of [] e = 0
  accepted of ((ctx, req) ∷ reqs) e =
      let rest = accepted of reqs (check_request a ctx req e).1 in
      if is_successful (check_request a ctx req e).0 && of req then rest + 1 else rest

-- Nothing was let through, or it and what was held before stay within the limit.
abbrev pub Within : ℤ → ℤ → ℕ → Type 0
Within limit held n = (n ≡ 0) ⊎ (held ⊕ n ≤ℤ limit)

Within-counted :
    (limit z z' : ℤ) (n : ℕ)
    → z ⊕ 1 ≤ℤ limit
    → z' ≡ z ⊕ 1
    → Within limit z' n
    → Within limit z (n + 1)
Within-counted limit z z' n room more (inl none_left) =
    inr (rw (ap (λ (m : ℕ). m + 1) none_left) room)
Within-counted limit z z' n room more (inr fits) =
    let fits' : z ⊕ 1 ⊕ n ≤ℤ limit = rw more at fits in
    inr (omega (arith, ⊕_parts z 1, ⊕_parts (z ⊕ 1) n, ⊕_parts z (n + 1)))

Within-skipped : (limit z z' : ℤ) (n : ℕ) → z ≤ℤ z' → Within limit z' n → Within limit z n
Within-skipped limit z z' n grows (inl none_left) = inl none_left
Within-skipped limit z z' n grows (inr fits) = inr (omega (arith, ⊕_parts z n, ⊕_parts z' n))

module _ {S B : Type 0} (a : App S B) (count : B → String → ℤ)
    (laws : IsCounting a.bucket_storage count) where
  abbrev held : Env (Stores S B) → String → ℤ
  held = attempts_of count

  -- One kind of key: each request of the kind that passes has found room and has counted.
  module _ (key : String) (of : RequestAuth → Bool) (limit : ℤ)
      (step : (ctx : Context) (req : RequestAuth) (e : Env (Stores S B))
        → of req ≡ true
        → Passed a count laws ctx req e
        → ((held e key ⊕ 1) ≤ℤ limit)
          × (held (check_request a ctx req e).1 key ≡ held e key ⊕ 1)) where
    accepted-Within :
        (reqs : List (Context × RequestAuth)) (e : Env (Stores S B))
        → Within limit (held e key) (accepted a of reqs e)
    unfolding accepted
    accepted-Within [] e = inl refl
    accepted-Within ((ctx, req) ∷ reqs) e =
        elim (Bool-cases (is_successful (check_request a ctx req e).0 && of req)) [
          | inl counted ↦
              let passed = check_request-Passed a count laws ctx req e (ground arith) in
              let (room, more) = step ctx req e (ground arith) passed in
              rw counted (
                Within-counted limit (held e key) _ _ room more
                  (accepted-Within reqs (check_request a ctx req e).1))
          | inr skipped ↦ rw skipped (
              Within-skipped limit (held e key) (held (check_request a ctx req e).1 key) _
                (check_request-grows a count laws ctx req e key)
                (accepted-Within reqs (check_request a ctx req e).1))
        ]

  abbrev pub Bounded :
      String → (RequestAuth → Bool) → ℤ → List (Context × RequestAuth) → Env (Stores S B) → Type 0
  Bounded key of limit reqs e = Within limit (held e key) (accepted a of reqs e)

  -- Whatever the requests are, in whatever order, and whichever calls of the storages fail: of those
  -- with one login, those with one password and those with one address, `CheckRequest` lets through
  -- the counters none, or so many that they and the attempts counted before them stay within the limit
  -- of their kind.
  pub rate_limits :
      (login password ip : String) (reqs : List (Context × RequestAuth)) (e : Env (Stores S B))
      → Bounded ("l_" ⧺ login) (λ r. r.login =~ login) a.limits.limit_login reqs e
        × Bounded ("p_" ⧺ password) (λ r. r.password =~ password) a.limits.limit_password reqs e
        × Bounded ("i_" ⧺ ip) (λ r. r.ip =~ ip) a.limits.limit_ip reqs e
  rate_limits login password ip reqs e = (
    accepted-Within ("l_" ⧺ login) (λ r. r.login =~ login) a.limits.limit_login
        (λ ctx req e' same p. rw (← (eq_iff req.login login).0 same) (p.login_room, p.login_count))
        reqs e,
    accepted-Within ("p_" ⧺ password) (λ r. r.password =~ password) a.limits.limit_password
        (λ ctx req e' same p.
          rw (← (eq_iff req.password password).0 same) (p.password_room, p.password_count))
        reqs e,
    accepted-Within ("i_" ⧺ ip) (λ r. r.ip =~ ip) a.limits.limit_ip
        (λ ctx req e' same p. rw (← (eq_iff req.ip ip).0 same) (p.ip_room, p.ip_count)) reqs e,
  )
