-- ===== src/Redis/Tests.antt =====
-- Runs of redis.go over the server in memory, and its theorem at that server.
use golang_fin.Prelude.{◌≡◌, refl, false, [], ◌∷◌}
use golang_fin.Prelude.Int.{pos, ◌⊕◌}
use golang_fin.Std.Map.{lookup, insert}
use golang_fin.Std.Strconv.{atoi, itoa}
use golang_fin.Errors.{ok, err, external}
use golang_fin.StorageData.{Context}
use golang_fin.Exec.{Env}
use golang_fin.Interfaces.Counting.{IsCounting}
use golang_fin.Redis.{increase_and_get_bucket_value, set_bucket_value, flush_storage, redis_storage}
use golang_fin.Redis.Memory.{
  Memory, memory_client, stored, incr, incr_by, set, flush_db, memory-IsRedis,
}
use golang_fin.Redis.Counting.{count, redis-IsCounting}

abbrev live : Context
live = record { done = false }

abbrev server : Memory → Env Memory
server m = record { state = m; log = [] }

runs : Unit {0}
unfolding increase_and_get_bucket_value set_bucket_value flush_storage incr incr_by set flush_db
    lookup insert atoi itoa ◌⊕◌
runs = tt

counter_starts_at_one :
    (increase_and_get_bucket_value memory_client live "l_ann" (server [])).0 ≡ ok (pos 1)
unfolding runs
counter_starts_at_one = refl

counter_after_reset :
    (increase_and_get_bucket_value memory_client live "l_ann"
      (set_bucket_value memory_client live "l_ann" (pos 0) (server (("l_ann", "41") ∷ []))).1).0
    ≡ ok (pos 1)
unfolding runs
counter_after_reset = refl

counter_at_its_end :
    (increase_and_get_bucket_value memory_client live "l_ann"
      (server (("l_ann", "9223372036854775807") ∷ []))).0
    ≡ err (external "ERR increment or decrement would overflow")
unfolding runs
counter_at_its_end = refl

redis-IsCounting_example : IsCounting (redis_storage memory_client) (count stored)
redis-IsCounting_example = redis-IsCounting memory_client stored memory-IsRedis
