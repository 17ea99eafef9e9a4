-- ===== src/Redis/Counting.antt =====
-- Redis keeps a counter for each key: the storage of redis.go fills the interface of the application.
use golang_fin.Prelude.{
  String, ◌≡◌, refl, ap, Bool, true, false, Option, some, arith, ◌=~◌, if◌then◌else◌, eq_iff, ◌⊎◌,
  inl, inr,
}
use golang_fin.Prelude.Int.{ℤ, pos, ◌⊕◌, ◌≤ℤ◌, IsInt64, ⊕_parts}
use golang_fin.Std.Strconv.{itoa}
use golang_fin.Std.Strconv.RoundTrip.{atoi-itoa}
use golang_fin.Errors.{ok}
use golang_fin.StorageData.{Context}
use golang_fin.Exec.{Env, Result-cases}
use golang_fin.Interfaces.Counting.{IsCounting}
use golang_fin.Redis.Client.{RedisClient, IsRedis, number, number_of, Writes}
use golang_fin.Redis.{increase_and_get_bucket_value, set_bucket_value, flush_storage, redis_storage}

-- What a write of a printed number does to the numbers.
number-Writes :
    (key : String) (z : ℤ) (before after : String → Option String) (j : String)
    → IsInt64 z
    → Writes key (some (itoa z)) before after
    → number (after j) ≡ (if key =~ j then z else number (before j))
number-Writes key z before after j range w = rw (w j) (by_test (key =~ j))
  where
    by_test :
        (b : Bool)
        → number (if b then some (itoa z) else before j) ≡ (if b then z else number (before j))
    by_test true = ap number_of (atoi-itoa z range)
    by_test false = refl

-- The counter of a key in the server.
abbrev pub count : {R : Type 0} → (R → String → Option String) → R → String → ℤ
count stored r key = number (stored r key)

module _ {R : Type 0} (client : RedisClient R) (stored : R → String → Option String)
    (laws : IsRedis client stored) where
  abbrev held : R → String → ℤ
  held = count stored

  module _ (ctx : Context) (key : String) (e : Env R) where
    incr-value :
        (n : ℤ)
        → (increase_and_get_bucket_value client ctx key e).0 ≡ ok n
        → n ≡ held e.state key ⊕ 1
    unfolding increase_and_get_bucket_value
    incr-value n h = (laws.incr_ok ctx key e.state n (ground arith)).0

    incr-count :
        (n : ℤ) (j : String)
        → (increase_and_get_bucket_value client ctx key e).0 ≡ ok n
        → held (increase_and_get_bucket_value client ctx key e).1.state j
          ≡ (if key =~ j then held e.state j ⊕ 1 else held e.state j)
    unfolding increase_and_get_bucket_value
    incr-count n j h =
        let done : (client.incr ctx key e.state).0 ≡ ok n = ground arith in
        let (sum, range, written) = laws.incr_ok ctx key e.state n done in
        ground (arith, eq_iff key j, number-Writes key n _ _ j range written)

    incr-grows :
        (j : String)
        → held e.state j ≤ℤ held (increase_and_get_bucket_value client ctx key e).1.state j
    unfolding increase_and_get_bucket_value
    incr-grows j = elim (Result-cases (client.incr ctx key e.state).0) [
      | inl (n, done) ↦ ground (arith, incr-count n j, ⊕_parts (held e.state j) 1)
      | inr (x, failed) ↦ elim (laws.incr_err ctx key e.state x failed) [
        | inl kept ↦ ground (arith, ap number (kept j))
        | inr (range, written) ↦ ground (
          arith,
          eq_iff key j,
          ⊕_parts (held e.state j) 1,
          number-Writes key (held e.state key ⊕ 1) _ _ j range written,
        )
      ]
    ]

    set-count :
        (v : ℤ) (j : String)
        → IsInt64 v
        → (set_bucket_value client ctx key v e).0 ≡ ok tt
        → held (set_bucket_value client ctx key v e).1.state j
          ≡ (if key =~ j then v else held e.state j)
    unfolding set_bucket_value
    set-count v j range h =
        let done : (client.set ctx key (itoa v) e.state).0 ≡ ok tt = ground arith in
        let written = laws.set_ok ctx key (itoa v) e.state done in
        ground (arith, number-Writes key v _ _ j range written)

  flush-state :
      (ctx : Context) (e : Env R)
      → (flush_storage client ctx e).1.state ≡ (client.flush_db ctx e.state).1
  unfolding flush_storage
  flush-state ctx e = ground arith

  flush-cases :
      (ctx : Context) (e : Env R)
      → ((j : String) → held (flush_storage client ctx e).1.state j ≡ pos 0)
        ⊎ ((j : String) → held (flush_storage client ctx e).1.state j ≡ held e.state j)
  flush-cases ctx e = elim (Result-cases (client.flush_db ctx e.state).0) [
    | inl (u, done) ↦ inl (λ j. rw flush-state (ap number (laws.flush_ok ctx e.state j done)))
    | inr (x, failed) ↦ elim (laws.flush_err ctx e.state x failed) [
      | inl kept ↦ inr (λ j. rw flush-state (ap number (kept j)))
      | inr gone ↦ inl (λ j. rw flush-state (ap number (gone j)))
    ]
  ]

  -- Over a server that carries its commands out as documented, redis.go is a storage of counters.
  pub redis-IsCounting : IsCounting (redis_storage client) (count stored)
  redis-IsCounting = record {
    incr_value = λ ctx key e n. incr-value ctx key e n;
    incr_count = λ ctx key e n j. incr-count ctx key e n j;
    incr_grows = λ ctx key e j. incr-grows ctx key e j;
    set_count = λ ctx key v e j. set-count ctx key e v j;
    flush_cases = flush-cases;
  }
