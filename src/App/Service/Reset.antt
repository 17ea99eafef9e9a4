-- ===== src/App/Service/Reset.antt =====
-- What clears the counters: the two calls for one bucket, and the tick for all of them.
use golang_fin.Prelude.{String, ◌≡◌, arith, ◌=~◌, ◌⧺◌, if◌then◌else◌, ◌⊎◌, inl, inr}
use golang_fin.Prelude.Int.{ℤ, pos}
use golang_fin.Errors.{ok}
use golang_fin.StorageData.{Context}
use golang_fin.Exec.{Env}
use golang_fin.Interfaces.Counting.{IsCounting}
use golang_fin.App.Service.{App, Stores, clear_bucket_for_login, clear_bucket_for_ip, tick}
use golang_fin.App.Service.Check.{attempts_of}

module _ {S B : Type 0} (a : App S B) (count : B → String → ℤ)
    (laws : IsCounting a.bucket_storage count) (ctx : Context) where
  abbrev held : Env (Stores S B) → String → ℤ
  held = attempts_of count

  abbrev inner : Env (Stores S B) → Env B
  inner e = record { state = e.state.buckets; log = e.log }

  pub clear_bucket_for_login-held :
      (login : String) (e : Env (Stores S B)) (j : String)
      → (clear_bucket_for_login a ctx login e).0 ≡ ok tt
      → held (clear_bucket_for_login a ctx login e).1 j
        ≡ (if ("l_" ⧺ login) =~ j then pos 0 else held e j)
  unfolding clear_bucket_for_login
  clear_bucket_for_login-held login e j h =
      ground
        (arith, laws.set_count ctx ("l_" ⧺ login) (pos 0) (inner e) j (omega arith, omega arith))

  pub clear_bucket_for_ip-held :
      (ip : String) (e : Env (Stores S B)) (j : String)
      → (clear_bucket_for_ip a ctx ip e).0 ≡ ok tt
      → held (clear_bucket_for_ip a ctx ip e).1 j ≡ (if ("i_" ⧺ ip) =~ j then pos 0 else held e j)
  unfolding clear_bucket_for_ip
  clear_bucket_for_ip-held ip e j h =
      ground (arith, laws.set_count ctx ("i_" ⧺ ip) (pos 0) (inner e) j (omega arith, omega arith))

  -- A tick clears every counter, or leaves every counter as it is when the storage could not be
  -- flushed; it never fails.
  pub tick-held :
      (e : Env (Stores S B))
      → ((tick a ctx e).0 ≡ ok tt)
        × (((j : String) → held (tick a ctx e).1 j ≡ pos 0)
            ⊎ ((j : String) → held (tick a ctx e).1 j ≡ held e j))
  unfolding tick
  tick-held e = (
    ground arith,
    elim (laws.flush_cases ctx (inner e)) [
      | inl gone ↦ inl (λ j. ground (arith, gone j))
      | inr kept ↦ inr (λ j. ground (arith, kept j))
    ],
  )
