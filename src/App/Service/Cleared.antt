-- ===== src/App/Service/Cleared.antt =====
-- internal/app/app.go: what clearing a bucket is for: the next attempt is not refused by its counter.
use golang_fin.Prelude.{
  String, ◌≡◌, ◌≢◌, refl, ap, subst, ◌∙◌, Bool, true, false, arith, ◌=~◌, ◌⊎◌, inl, inr,
  ne_of_eq_false, eq_iff, if◌then◌else◌,
}
use golang_fin.Prelude.Int.{ℤ, pos, ◌≤ℤ◌, ◌<ℤ◌, ◌⊕◌}
use golang_fin.Errors.{ok}
use golang_fin.StorageData.{RequestAuth, Context}
use golang_fin.Exec.{Exec, Env}
use golang_fin.Interfaces.Counting.{IsCounting}
use golang_fin.App.Service.{App, Stores, clear_bucket_for_login, clear_bucket_for_ip, check_request}
use golang_fin.App.Service.Check.{attempts_of, l_key, i_key}
use golang_fin.App.Service.Reset.{clear_bucket_for_login-held, clear_bucket_for_ip-held}
use golang_fin.App.Service.Verdict.{Decided, check_request-verdict}

-- The buckets that can be cleared.
pub data Bucket : Type 0 where
  of_login of_address : Bucket

abbrev pub key_of : Bucket → RequestAuth → String
key_of of_login req = l_key req
key_of of_address req = i_key req

abbrev pub refusal : Bucket → String
refusal of_login = "Limited by login rate"
refusal of_address = "Limited by IP rate"

over_one : (limit : ℤ) → pos 1 ≤ℤ limit → ¬ (limit <ℤ pos 0 ⊕ 1)
unfolding ◌⊕◌
over_one limit positive over = omega (arith, positive, over)

over_zero : (n limit : ℤ) → n ≡ pos 0 → pos 1 ≤ℤ limit → ¬ (limit <ℤ n ⊕ 1)
over_zero n limit zero_count positive over =
    over_one limit positive (subst (λ (m : ℤ). limit <ℤ m ⊕ 1) zero_count over)

apart : (s t : String) (b c : Bool) → (s =~ t) ≡ false → ¬ (◌≡◌ {A = Bool × String} (b, s) (c, t))
apart s t b c differ q = ne_of_eq_false s t differ (ap (λ p. p.1) q)

module _ {S B : Type 0} (a : App S B) where
  abbrev pub clear : Bucket → Context → RequestAuth → Exec (Stores S B) Unit
  clear of_login ctx req = clear_bucket_for_login a ctx req.login
  clear of_address ctx req = clear_bucket_for_ip a ctx req.ip

  abbrev pub limit_of : Bucket → ℤ
  limit_of of_login = a.limits.limit_login
  limit_of of_address = a.limits.limit_ip

module _ {S B : Type 0} (a : App S B) (count : B → String → ℤ)
    (laws : IsCounting a.bucket_storage count) where
  abbrev held : Env (Stores S B) → String → ℤ
  held = attempts_of count

  cleared-held :
      (b : Bucket) (ctx : Context) (req : RequestAuth) (e : Env (Stores S B)) (j : String)
      → (clear a b ctx req e).0 ≡ ok tt
      → held (clear a b ctx req e).1 j ≡ (if key_of b req =~ j then pos 0 else held e j)
  cleared-held of_login ctx req e j h = clear_bucket_for_login-held a count laws ctx req.login e j h
  cleared-held of_address ctx req e j h = clear_bucket_for_ip-held a count laws ctx req.ip e j h

  not_limited :
      (b : Bucket) (req : RequestAuth) (n n' : String → ℤ)
      → pos 1 ≤ℤ limit_of a b
      → n (key_of b req) ≡ pos 0
      → ¬ Decided a count laws req (false, refusal b) n n'
  not_limited of_login req n n' positive zero_count h = elim h [
    | inl (over, text, counted) ↦ over_zero (n (l_key req)) _ zero_count positive over
    | inr (inl (l, over, text, counted)) ↦ apart _ _ false false refl text
    | inr (inr (inl (l, p, over, text, counted))) ↦ apart _ _ false false refl text
    | inr (inr (inr (l, p, i, text, counted))) ↦ apart _ _ false true refl text
  ]
  not_limited of_address req n n' positive zero_count h = elim h [
    | inl (over, text, counted) ↦ apart _ _ false false refl text
    | inr (inl (l, over, text, counted)) ↦ apart _ _ false false refl text
    | inr (inr (inl (l, p, over, text, counted))) ↦
        over_zero (n (i_key req)) _ zero_count positive over
    | inr (inr (inr (l, p, i, text, counted))) ↦ apart _ _ false true refl text
  ]

  by_list :
      (b : Bucket)
      → ¬ (
          (◌≡◌ {A = Bool × String} (false, refusal b) (false, "IP is in blacklist"))
          ⊎ (◌≡◌ {A = Bool × String} (false, refusal b) (true, "IP is in whitelist")))
  by_list of_login (inl text) = apart _ _ false false refl text
  by_list of_login (inr text) = apart _ _ false true refl text
  by_list of_address (inl text) = apart _ _ false false refl text
  by_list of_address (inr text) = apart _ _ false true refl text

  -- When the bucket of the login of an attempt has been cleared, or the bucket of its address, and the
  -- limit of that kind is at least 1, the next `CheckRequest` of the attempt is not refused by that
  -- limit, whatever the counter was before; the clearing has set no other counter.
  pub clear-check_request :
      (b : Bucket) (ctx ctx' : Context) (req : RequestAuth) (e : Env (Stores S B))
      → (clear a b ctx req e).0 ≡ ok tt
      → pos 1 ≤ℤ limit_of a b
      → ((check_request a ctx' req (clear a b ctx req e).1).0 ≢ ok (false, refusal b))
        × ((j : String)
            → held (clear a b ctx req e).1 j ≡ (if key_of b req =~ j then pos 0 else held e j))
  clear-check_request b ctx ctx' req e h positive = (
    λ q.
        elim (check_request-verdict a count laws ctx' req (false, refusal b) (clear a b ctx req e).1
          q) [
            | inl (listed, kept) ↦ by_list b listed
            | inr decided ↦
                not_limited b req _ _ positive
                  (cleared-held b ctx req e (key_of b req) h
                    ∙ ground (arith, eq_iff (key_of b req) (key_of b req)))
                  decided
          ],
    λ j. cleared-held b ctx req e j h,
  )
