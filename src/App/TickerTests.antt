-- ===== src/App/TickerTests.antt =====
-- The goroutine of the ticker over the mock and a server in memory.
use golang_fin.Prelude.{String, ◌≡◌, refl, List, [], ◌∷◌, ◌++◌, ◌⊎◌, true, false}
use golang_fin.Prelude.Int.{pos}
use golang_fin.Errors.{Result, ok}
use golang_fin.StorageData.{Context}
use golang_fin.Exec.{Env}
use golang_fin.StorageSqlMock.{Mock, mock_storage}
use golang_fin.Redis.{redis_storage}
use golang_fin.Redis.Memory.{Memory, memory_client, stored, memory-IsRedis}
use golang_fin.Redis.Counting.{count, redis-IsCounting}
use golang_fin.App.Service.{App, Stores}
use golang_fin.App.Service.Check.{attempts_of}
use golang_fin.App.Ticker.{
  Event, ctx_done, ticked, stopped, ticker_loop, iteration, carried, ticker_loop-goes_on,
}

abbrev app : App Mock Memory
app = record {
  storage = mock_storage (λ l. l);
  bucket_storage = redis_storage memory_client;
  limits = record { limit_login = pos 2; limit_password = pos 100; limit_ip = pos 1000 };
}

abbrev used : Env (Stores Mock Memory)
used = record {
  state = record {
    storage = record { whitelist = []; blacklist = []; id_white = 0; id_black = 0 };
    buckets = ("l_ann", "2") ∷ [];
  };
  log = [];
}

abbrev live : Context
live = record { done = false }

abbrev ended : Context
ended = record { done = true }

abbrev late : List (Event × Context)
late = (ctx_done, ended) ∷ (ctx_done, ended) ∷ []

-- The log after the end of the context
two_messages : (ticker_loop app late used).1.log ≡ stopped ∷ stopped ∷ []
unfolding ticker_loop iteration
two_messages = refl

abbrev run : Result Unit × Env (Stores Mock Memory)
run = ticker_loop app (((ticked, live) ∷ []) ++ ((ctx_done, ended) ∷ late)) used

ticker_loop-goes_on_example :
    (run
      ≡ ticker_loop app late
          (carried app ctx_done ended (ticker_loop app ((ticked, live) ∷ []) used).1))
    × (run.0 ≡ ok tt)
    × (((j : String) → attempts_of (count stored) run.1 j ≡ pos 0)
        ⊎ ((j : String) → attempts_of (count stored) run.1 j ≡ attempts_of (count stored) used j))
ticker_loop-goes_on_example =
    ticker_loop-goes_on app (count stored) (redis-IsCounting memory_client stored memory-IsRedis)
      ((ticked, live) ∷ []) ctx_done ended late used
