-- ===== src/Program/Status.antt =====
-- cmd/antibruteforce/main.go: what the server program has done when it ends, and its exit status.
use golang_fin.Prelude.{ℕ, suc, String, List, ◌≡◌, ap, sym, ◌∙◌}
use golang_fin.Prelude.Int.{pos}
use golang_fin.Errors.{Result, ok}
use golang_fin.StorageData.{Context}
use golang_fin.Exec.{Exec, Env, bind-ok, bind-goes_on, ok-inj, lift, ◌>>=◌}
use golang_fin.Interfaces.{Storage, BucketStorage}
use golang_fin.App.Service.{App, Stores}
use golang_fin.Viper.{Viper}
use golang_fin.Program.Config.{Config, init}
use golang_fin.Program.Main.{start_up, start, exit_status, run_server}
use golang_fin.Program.StartUp.{
  Succeeded, configured, status_of, serving, start_up-ok, exit_status-of, start-value, start-period,
  init-limits,
}

module _ {S B : Type 0} (viper : Viper) (new_logger : String → Result Unit) (storage : Storage S)
    (bucket_storage : BucketStorage B) (listen_and_serve : App S B → Exec (Stores S B) Unit)
    (path : String) (read : Result (List String)) (ctx : Context) (e : Env (Stores S B)) where
  abbrev ended : Result ℕ × Env (Stores S B)
  ended = run_server viper new_logger storage bucket_storage listen_and_serve path read ctx e

  abbrev begun : Config → Result (App S B) × Env (Stores S B)
  begun config = start_up storage bucket_storage path config read ctx e

  -- When the configuration has been read, its level is known, the start has given an application and
  -- the period of the ticker is positive, the program serves and ends with a status: 0 if
  -- `ListenAndServe` returns nil, and 1 if it returns an error, so that it ends with 1 also after a
  -- graceful shutdown.
  pub run_server-status :
      (config : Config) (a : App S B) (n : ℕ)
      → init viper path ≡ ok config
      → new_logger config.logger.level ≡ ok tt
      → (begun config).0 ≡ ok a
      → config.limit_time_check ≡ pos (suc n)
      → (ended.0 ≡ ok (status_of (listen_and_serve a (serving (begun config).1)).0))
        × (ended.1.state ≡ (listen_and_serve a (serving (begun config).1)).1.state)
  unfolding run_server exit_status
  run_server-status config a n known level up period =
      let e1 = (begun config).1 in
      let (value, state) = start-value n (listen_and_serve a) e1 in
      let (status, kept) =
        exit_status-of (listen_and_serve a (serving e1)).0
          (start (pos (suc n)) (listen_and_serve a) e1).1 in
      let runs =
        bind-goes_on (lift (init viper path)) _ e config known
        ∙ bind-goes_on (lift (new_logger config.logger.level)) _ e tt level
        ∙ bind-goes_on (start_up storage bucket_storage path config read ctx) _ e a up
        ∙ ap (λ p. (start p (listen_and_serve a) >>= exit_status) e1) period
        ∙ bind-goes_on (start (pos (suc n)) (listen_and_serve a)) exit_status e1 _ value in
      (ap (λ r. r.0) runs ∙ status, ap (λ r. r.1.state) runs ∙ kept ∙ state)

  pub run_server-served :
      (status : ℕ)
      → ended.0 ≡ ok status
      → Succeeded (storage.init ctx) e.state.storage
        × Succeeded (bucket_storage.init ctx) e.state.buckets
        × (e' : Env (Stores S B)) × (status
            ≡ status_of (listen_and_serve (configured viper path storage bucket_storage) e').0)
        × (ended.1.state
            ≡ (listen_and_serve (configured viper path storage bucket_storage) e').1.state)
  unfolding run_server
  run_server-served status h =
      let (config, known, q1) = bind-ok (lift (init viper path)) _ e status h in
      let (u, level, q2) = bind-ok (lift (new_logger config.logger.level)) _ e status q1 in
      let (a, up, q3) =
        bind-ok (start_up storage bucket_storage path config read ctx) _ e status q2 in
      let (started, run, q4) =
        bind-ok (start config.limit_time_check (listen_and_serve a)) exit_status _ status q3 in
      let (n, period) = start-period config.limit_time_check (listen_and_serve a) _ started run in
      let (sql, redis, made) = start_up-ok storage bucket_storage path config read ctx e a up in
      let same = init-limits viper path storage bucket_storage config a known made in
      let (ends, state) = run_server-status config a n known level up period in
      (
        sql,
        redis,
        serving (begun config).1,
        ok-inj _ _ (sym h ∙ ends)
            ∙ ap (λ b. status_of (listen_and_serve b (serving (begun config).1)).0) same,
        state ∙ ap (λ b. (listen_and_serve b (serving (begun config).1)).1.state) same,
      )
