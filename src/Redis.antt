-- ===== src/Redis.antt =====
-- internal/storage/redis/redis.go over the client library go-redis, which is a parameter.
pub mod Client
pub mod Counting
pub mod Memory
mod Tests
use golang_fin.Prelude.{String, Bool, ◌⧺◌}
use golang_fin.Prelude.Int.{ℤ}
use golang_fin.Std.Strconv.{itoa}
use golang_fin.Errors.{GoError, Result, ok, err, error_text}
use golang_fin.StorageData.{Context}
use golang_fin.Exec.{Exec, Env, pure, catch, log_fail, ◌>>=◌, ◌>>◌}
use golang_fin.Interfaces.{BucketStorage}
use golang_fin.Redis.Client.{RedisClient}

module _ {R : Type 0} (client : RedisClient R) where
  -- A command of the client, which knows nothing of the log.
  abbrev command : {A : Type 0} → (R → Result A × R) → Exec R A
  command c e = let (r, s) = c e.state in (r, record e { state = s })

  -- `logger.Error(text + err.Error()); return err`
  abbrev fail_after : {A : Type 0} → String → GoError → Exec R A
  fail_after text e = log_fail (text ⧺ error_text e) e

  -- `Init`: the client is made and asked; the result of the flush is not looked at.
  unfoldable pub init : Context → Exec R Unit
  init ctx = do
    catch (command (client.ping ctx)) (fail_after "RedisDB ping failed: ")
    catch (command (client.flush_db ctx)) (λ _. pure tt)

  -- `InitAsMock`; what starting a server in the process returned is given.
  unfoldable pub init_as_mock : Result Unit → Context → Exec R Unit
  init_as_mock started ctx = do
    catch (λ e. (started, e)) (fail_after "Redis mock failed:")
    catch (command (client.ping ctx)) (fail_after "Redis mock ping failed:")
    catch (command (client.flush_db ctx)) (λ _. pure tt)

  -- `FlushStorage`: the error of the command is dropped.
  unfoldable pub flush_storage : Context → Exec R Unit
  flush_storage ctx = catch (command (client.flush_db ctx)) (λ _. pure tt)

  -- `Close`
  unfoldable pub close : Context → Exec R Unit
  unfolding flush_storage
  close ctx = do
    catch (flush_storage ctx) (fail_after "RedisDB flush error while closing: ")
    catch (command client.close) (fail_after "RedisDB error while closing: ")

  -- `IncreaseAndGetBucketValue`
  unfoldable pub increase_and_get_bucket_value : Context → String → Exec R ℤ
  increase_and_get_bucket_value ctx bucket_name =
      catch (command (client.incr ctx bucket_name))
        (fail_after "RedisDB IncreaseAndGetBucketValue error: ")

  -- `SetBucketValue`
  unfoldable pub set_bucket_value : Context → String → ℤ → Exec R Unit
  set_bucket_value ctx bucket_name value =
      catch (command (client.set ctx bucket_name (itoa value)))
        (fail_after "RedisDB SetBucketValue error: ")

  -- The Redis storage as a `BucketStorage` of the application.
  abbrev pub redis_storage : BucketStorage R
  redis_storage = record {
    init = init;
    set_bucket_value = set_bucket_value;
    increase_and_get_bucket_value = increase_and_get_bucket_value;
    close = close;
    flush_storage = flush_storage;
  }
