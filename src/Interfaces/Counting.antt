-- ===== src/Interfaces/Counting.antt =====
-- What the application relies on of a `BucketStorage`: a view of its state as one counter for each
-- key. A failed call may have counted or not.
use golang_fin.Prelude.{String, ◌≡◌, ◌⊎◌, ◌=~◌, if◌then◌else◌}
use golang_fin.Prelude.Int.{ℤ, pos, ◌⊕◌, ◌≤ℤ◌, IsInt64}
use golang_fin.Errors.{ok}
use golang_fin.StorageData.{Context}
use golang_fin.Exec.{Env}
use golang_fin.Interfaces.{BucketStorage}

pub record IsCounting {B : Type 0} (b : BucketStorage B) (count : B → String → ℤ) : Type 0 where
  pub incr_value :
      (ctx : Context) (key : String) (e : Env B) (n : ℤ)
      → (b.increase_and_get_bucket_value ctx key e).0 ≡ ok n
      → n ≡ count e.state key ⊕ 1
  pub incr_count :
      (ctx : Context) (key : String) (e : Env B) (n : ℤ) (j : String)
      → (b.increase_and_get_bucket_value ctx key e).0 ≡ ok n
      → count (b.increase_and_get_bucket_value ctx key e).1.state j
        ≡ (if key =~ j then count e.state j ⊕ 1 else count e.state j)
  pub incr_grows :
      (ctx : Context) (key : String) (e : Env B) (j : String)
      → count e.state j ≤ℤ count (b.increase_and_get_bucket_value ctx key e).1.state j
  pub set_count :
      (ctx : Context) (key : String) (v : ℤ) (e : Env B) (j : String)
      → IsInt64 v
      → (b.set_bucket_value ctx key v e).0 ≡ ok tt
      → count (b.set_bucket_value ctx key v e).1.state j ≡ (if key =~ j then v else count e.state j)
  -- A flush that fails may not be reported.
  pub flush_cases :
      (ctx : Context) (e : Env B)
      → ((j : String) → count (b.flush_storage ctx e).1.state j ≡ pos 0)
        ⊎ ((j : String) → count (b.flush_storage ctx e).1.state j ≡ count e.state j)
