-- ===== src/Interfaces.antt =====
-- The interfaces `Storage` and `BucketStorage` of internal/app/app.go and `Application` of
-- internal/server/http/server.go, over states of their own.
pub mod Counting
pub mod Listing
use golang_fin.Prelude.{String, Bool, List}
use golang_fin.Prelude.Int.{ℤ}
use golang_fin.StorageData.{StorageIpData, RequestAuth, Context}
use golang_fin.Exec.{Exec}

-- `app.Storage`: the white list and the black list.
pub record Storage (S : Type 0) : Type 0 where
  pub init : Context → Exec S Unit
  pub close : Context → Exec S Unit
  pub ip_add_to_list : Context → String → StorageIpData → Exec S ℤ
  pub ip_remove_from_list : Context → String → StorageIpData → Exec S Unit
  pub ip_is_in_list : Context → String → StorageIpData → Exec S Bool
  pub ip_get_all_from_list : Context → String → Exec S (List StorageIpData)

-- `app.BucketStorage`: the counters of attempts.
pub record BucketStorage (B : Type 0) : Type 0 where
  pub init : Context → Exec B Unit
  pub set_bucket_value : Context → String → ℤ → Exec B Unit
  pub increase_and_get_bucket_value : Context → String → Exec B ℤ
  pub close : Context → Exec B Unit
  pub flush_storage : Context → Exec B Unit

-- `Application` of the server; `RateLimitTicker` starts a goroutine and is no step of the state.
pub record Application (S : Type 0) : Type 0 where
  pub init_bucket_storage_and_limits : Context → Exec S Unit
  pub close_bucket_storage : Context → Exec S Unit
  pub check_request : Context → RequestAuth → Exec S (Bool × String)
  pub clear_bucket_for_login : Context → String → Exec S Unit
  pub clear_bucket_for_ip : Context → String → Exec S Unit
  pub init_storage : Context → Exec S Unit
  pub close_storage : Context → Exec S Unit
  pub ip_add_to_list : Context → String → StorageIpData → Exec S ℤ
  pub ip_remove_from_list : Context → String → StorageIpData → Exec S Unit
  pub ip_is_in_list : Context → String → StorageIpData → Exec S Bool
  pub ip_get_all_from_list : Context → String → Exec S (List StorageIpData)
