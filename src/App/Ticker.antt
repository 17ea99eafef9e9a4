-- ===== src/App/Ticker.antt =====
-- internal/app/app.go: the goroutine that `RateLimitTicker` starts.
use golang_fin.Prelude.{suc, List, [], ◌∷◌, ◌++◌, ◌≡◌, refl, ◌∙◌, ◌⊎◌, inl, inr, String}
use golang_fin.Prelude.Int.{ℤ, pos}
use golang_fin.Errors.{ok, external}
use golang_fin.StorageData.{Context}
use golang_fin.Exec.{Exec, Env, LogEntry, info, pure, fail, log_info, ◌>>◌}
use golang_fin.Interfaces.Counting.{IsCounting}
use golang_fin.App.Service.{App, Stores, tick}
use golang_fin.App.Service.Reset.{tick-held}
use golang_fin.App.Service.Check.{attempts_of}

-- What the select of an iteration finds: the context is done, or the ticker has ticked.
pub data Event : Type 0 where
  ctx_done ticked : Event

-- `time.NewTicker` panics for a period that is not positive.
unfoldable pub new_ticker : {S : Type 0} → ℤ → Exec S Unit
new_ticker (pos (suc n)) = pure tt
new_ticker _ = fail (external "non-positive interval for NewTicker")

-- `RateLimitTicker` up to the start of the goroutine
unfoldable pub rate_limit_ticker : {S : Type 0} → ℤ → Exec S Unit
unfolding new_ticker
rate_limit_ticker period = do log_info "rate limiter ticker started"; new_ticker period

abbrev pub stopped : LogEntry
stopped = record { level = info; msg = "rate limiter ticker stopped" }

module _ {S B : Type 0} (a : App S B) where
  -- One iteration; the `break` leaves the select and not the loop. A context that is done stays so
  -- for the flush.
  unfoldable pub iteration : Event → Context → Exec (Stores S B) Unit
  iteration ctx_done ctx = log_info "rate limiter ticker stopped"
  iteration ticked ctx = tick a ctx

  -- The loop, over the events there are, each with the context as the iteration finds it
  unfoldable pub ticker_loop : List (Event × Context) → Exec (Stores S B) Unit
  unfolding iteration
  ticker_loop [] = pure tt
  ticker_loop ((event, ctx) ∷ events) = iteration event ctx >> ticker_loop events

  -- What one event does to the stores and the log
  abbrev pub carried : Event → Context → Env (Stores S B) → Env (Stores S B)
  carried ctx_done ctx e = record { state = e.state; log = stopped ∷ e.log }
  carried ticked ctx e = (tick a ctx e).1

  module _ (count : B → String → ℤ) (laws : IsCounting a.bucket_storage count) where
    ran :
        (events : List (Event × Context)) (e : Env (Stores S B)) → (ticker_loop events e).0 ≡ ok tt
    unfolding ticker_loop iteration
    ran [] e = refl
    ran ((ctx_done, ctx) ∷ events) e = ran events _
    ran ((ticked, ctx) ∷ events) e =
        rw ((tick-held a count laws ctx e).0) (ran events (tick a ctx e).1)

    goes_on :
        (before : List (Event × Context)) (event : Event) (ctx : Context)
        (later : List (Event × Context)) (e : Env (Stores S B))
        → ticker_loop (before ++ ((event, ctx) ∷ later)) e
          ≡ ticker_loop later (carried event ctx (ticker_loop before e).1)
    unfolding ticker_loop iteration
    goes_on [] ctx_done ctx later e = refl
    goes_on [] ticked ctx later e = rw ((tick-held a count laws ctx e).0) refl
    goes_on ((ctx_done, c) ∷ before) event ctx later e = goes_on before event ctx later _
    goes_on ((ticked, c) ∷ before) event ctx later e =
        rw ((tick-held a count laws c e).0) (goes_on before event ctx later (tick a c e).1)

    held :
        (events : List (Event × Context)) (e : Env (Stores S B))
        → ((j : String) → attempts_of count (ticker_loop events e).1 j ≡ pos 0)
          ⊎ ((j : String) → attempts_of count (ticker_loop events e).1 j ≡ attempts_of count e j)
    unfolding ticker_loop iteration
    held [] e = inr (λ j. refl)
    held ((ctx_done, ctx) ∷ events) e = held events _
    held ((ticked, ctx) ∷ events) e =
        let (begun, cases) = tick-held a count laws ctx e in
        rw (begun) (elim (held events (tick a ctx e).1) [
          | inl zeros ↦ inl zeros
          | inr kept ↦ elim cases [
            | inl zeros ↦ inl (λ j. kept j ∙ zeros j)
            | inr before ↦ inr (λ j. kept j ∙ before j)
          ]
        ])

    -- No event ends the goroutine, neither a flush that fails nor the end of its context: whatever
    -- comes before an event and after it, the loop goes on with the events after it from where the
    -- event has left the stores and the log. The end of the context leaves the stores, and writes each
    -- time that the ticker has stopped; a tick is carried out also after it. The counters are all zero
    -- in the end, or all as they were.
    pub ticker_loop-goes_on :
        (before : List (Event × Context)) (event : Event) (ctx : Context)
        (later : List (Event × Context)) (e : Env (Stores S B))
        → let run = ticker_loop (before ++ ((event, ctx) ∷ later)) e in
          (run ≡ ticker_loop later (carried event ctx (ticker_loop before e).1))
          × (run.0 ≡ ok tt)
          × (((j : String) → attempts_of count run.1 j ≡ pos 0)
              ⊎ ((j : String) → attempts_of count run.1 j ≡ attempts_of count e j))
    ticker_loop-goes_on before event ctx later e = (
      goes_on before event ctx later e,
      ran (before ++ ((event, ctx) ∷ later)) e,
      held (before ++ ((event, ctx) ∷ later)) e,
    )
