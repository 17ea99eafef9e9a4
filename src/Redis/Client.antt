-- ===== src/Redis/Client.antt =====
-- The commands of a Redis server that internal/storage/redis uses, through the library go-redis, and
-- what its documentation says of them. The server keeps a text for each key.
use golang_fin.Prelude.{String, ◌≡◌, ◌⊎◌, Option, none, some, ◌=~◌, if◌then◌else◌}
use golang_fin.Prelude.Int.{ℤ, pos, ◌⊕◌, IsInt64}
use golang_fin.Std.Strconv.{Parsed, value, failed, itoa, atoi}
use golang_fin.Errors.{GoError, Result, ok, err}
use golang_fin.StorageData.{Context}

pub record RedisClient (R : Type 0) : Type 0 where
  pub ping : Context → R → Result Unit × R
  pub incr : Context → String → R → Result ℤ × R
  pub set : Context → String → String → R → Result Unit × R
  pub flush_db : Context → R → Result Unit × R
  pub close : R → Result Unit × R

-- The number under a key: zero under a key that does not exist, or whose text is no number.
abbrev pub number_of : Parsed ℤ → ℤ
number_of (value z) = z
number_of (failed e) = pos 0

abbrev pub number : Option String → ℤ
number none = pos 0
number (some s) = number_of (atoi s)

-- After `before` became `after`, the text under `key` is `new` and all others are as they were.
abbrev pub Writes : String → Option String → (before after : String → Option String) → Type 0
Writes key new before after = (j : String) → after j ≡ (if key =~ j then new else before j)

abbrev pub Unchanged : (before after : String → Option String) → Type 0
Unchanged before after = (j : String) → after j ≡ before j

-- A command that fails on the way has been carried out or not.
pub record IsRedis {R : Type 0} (client : RedisClient R) (stored : R → String → Option String)
    : Type 0 where
  -- INCR adds one to the number under the key, if the sum has 64 bits, and replies with the sum.
  pub incr_ok :
      (ctx : Context) (key : String) (r : R) (reply : ℤ)
      → (client.incr ctx key r).0 ≡ ok reply
      → (reply ≡ number (stored r key) ⊕ 1)
        × IsInt64 reply
        × Writes key (some (itoa reply)) (stored r) (stored (client.incr ctx key r).1)
  pub incr_err :
      (ctx : Context) (key : String) (r : R) (x : GoError)
      → (client.incr ctx key r).0 ≡ err x
      → Unchanged (stored r) (stored (client.incr ctx key r).1)
        ⊎ (IsInt64 (number (stored r key) ⊕ 1)
            × Writes key
                (some (itoa (number (stored r key) ⊕ 1)))
                (stored r)
                (stored (client.incr ctx key r).1))
  -- SET puts the text under the key.
  pub set_ok :
      (ctx : Context) (key text : String) (r : R)
      → (client.set ctx key text r).0 ≡ ok tt
      → Writes key (some text) (stored r) (stored (client.set ctx key text r).1)
  pub set_err :
      (ctx : Context) (key text : String) (r : R) (x : GoError)
      → (client.set ctx key text r).0 ≡ err x
      → Unchanged (stored r) (stored (client.set ctx key text r).1)
        ⊎ Writes key (some text) (stored r) (stored (client.set ctx key text r).1)
  -- FLUSHDB removes all keys.
  pub flush_ok :
      (ctx : Context) (r : R) (j : String)
      → (client.flush_db ctx r).0 ≡ ok tt
      → stored (client.flush_db ctx r).1 j ≡ none
  pub flush_err :
      (ctx : Context) (r : R) (x : GoError)
      → (client.flush_db ctx r).0 ≡ err x
      → Unchanged (stored r) (stored (client.flush_db ctx r).1)
        ⊎ ((j : String) → stored (client.flush_db ctx r).1 j ≡ none)
