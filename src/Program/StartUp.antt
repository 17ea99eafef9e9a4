-- ===== src/Program/StartUp.antt =====
-- What has happened when the server program serves, step by step.
use golang_fin.Prelude.{ℕ, zero, suc, String, List, [], ◌∷◌, ◌≡◌, refl, subst, arith, inl, inr, ◌⧺◌}
use golang_fin.Prelude.Int.{ℤ, pos, negsuc}
use golang_fin.Errors.{Result, ok, err}
use golang_fin.StorageData.{Context}
use golang_fin.Exec.{Exec, Env, info, Result-cases}
use golang_fin.Interfaces.{Storage, BucketStorage}
use golang_fin.App.Service.{App, Stores}
use golang_fin.Viper.{Viper, get_int}
use golang_fin.Program.Config.{Config, limits_of, init, settings}
use golang_fin.Program.Defaults.{init_iff}
use golang_fin.Program.Main.{
  new_app, log_files, init_storages, start_up, start, on_listened, exit_status,
}
use golang_fin.App.Ticker.{rate_limit_ticker}

-- A call that has succeeded in a state
abbrev pub Succeeded : {T : Type 0} → Exec T Unit → T → Type 0
Succeeded {T} m t = (e : Env T) × (e.state ≡ t) × ((m e).0 ≡ ok tt)

-- The status for what `ListenAndServe` returns: also `ErrServerClosed` is a failure.
abbrev pub status_of : Result Unit → ℕ
status_of (ok u) = 0
status_of (err x) = 1

module _ {S B : Type 0} where
  log_files-state :
      (files : List String) (e : Env (Stores S B))
      → ((log_files files e).0 ≡ ok tt) × ((log_files files e).1.state ≡ e.state)
  unfolding log_files
  log_files-state [] e = (refl, refl)
  log_files-state (name ∷ files) e = log_files-state files _

  init_storages-ok :
      (storage : Storage S) (bucket_storage : BucketStorage B) (ctx : Context)
      (e : Env (Stores S B))
      → (init_storages storage bucket_storage ctx e).0 ≡ ok tt
      → Succeeded (storage.init ctx) e.state.storage
        × Succeeded (bucket_storage.init ctx) e.state.buckets
  unfolding init_storages
  init_storages-ok storage bucket_storage ctx e h =
      let opened = storage.init ctx (record { state = e.state.storage; log = e.log }) in
      (
        (record { state = e.state.storage; log = e.log }, refl, ground arith),
        (record { state = e.state.buckets; log = opened.1.log }, refl, ground arith),
      )

  -- The log after the first messages
  abbrev greeted : String → Config → Env (Stores S B) → Env (Stores S B)
  greeted path config e = record e {
    log =
        record {
          level = info;
          msg = "Redis Address:" ⧺ config.redis_address ⧺ ":" ⧺ config.redis_port;
        }
        ∷ record { level = info; msg = "SQL Address:" ⧺ config.db_address ⧺ ":" ⧺ config.db_port }
        ∷ record { level = info; msg = "Server Address: " ⧺ config.address }
        ∷ record { level = info; msg = "Config path: " ⧺ path }
        ∷ e.log;
  }

  -- An application, whose storages have been initialised
  pub start_up-ok :
      (storage : Storage S) (bucket_storage : BucketStorage B) (path : String) (config : Config)
      (read : Result (List String)) (ctx : Context) (e : Env (Stores S B)) (a : App S B)
      → (start_up storage bucket_storage path config read ctx e).0 ≡ ok a
      → Succeeded (storage.init ctx) e.state.storage
        × Succeeded (bucket_storage.init ctx) e.state.buckets
        × (a ≡ record {
          storage = storage;
          bucket_storage = bucket_storage;
          limits = record {
            limit_login = config.limit_login;
            limit_password = config.limit_password;
            limit_ip = config.limit_ip;
          };
        })
  unfolding start_up new_app limits_of
  start_up-ok storage bucket_storage path config (err x) ctx e a h = ground (arith, h)
  start_up-ok storage bucket_storage path config (ok files) ctx e a h =
      let e' = (log_files files (greeted path config e)).1 in
      let (read_all, kept) = log_files-state files (greeted path config e) in
      elim (Result-cases (init_storages storage bucket_storage ctx e').0) [
        | inr (x, q) ↦ ground (arith, h, read_all, q)
        | inl (u, q) ↦
            let (sql, redis) = init_storages-ok storage bucket_storage ctx e' q in
            (
              subst (λ (s : Stores S B). Succeeded (storage.init ctx) s.storage) kept sql,
              subst (λ (s : Stores S B). Succeeded (bucket_storage.init ctx) s.buckets) kept redis,
              ground (arith, h, read_all, q),
            )
      ]

  -- The application with the limits of the settings
  abbrev pub configured : Viper → String → Storage S → BucketStorage B → App S B
  configured viper path storage bucket_storage = record {
    storage = storage;
    bucket_storage = bucket_storage;
    limits = record {
      limit_login = get_int viper path "config" "LIMIT_LOGIN" (pos 10);
      limit_password = get_int viper path "config" "LIMIT_PASSWORD" (pos 100);
      limit_ip = get_int viper path "config" "LIMIT_IP" (pos 1000);
    };
  }

  pub exit_status-of :
      (r : Result Unit) (e : Env (Stores S B))
      → ((exit_status r e).0 ≡ ok (status_of r)) × ((exit_status r e).1.state ≡ e.state)
  unfolding exit_status
  exit_status-of (ok u) e = (refl, refl)
  exit_status-of (err x) e = (refl, refl)

  -- What the program serves in: the stores after the start, with two messages more
  abbrev pub serving : Env (Stores S B) → Env (Stores S B)
  serving e = record {
    state = e.state;
    log =
        record { level = info; msg = "rate limiter ticker started" }
        ∷ record { level = info; msg = "AntiBF is running" }
        ∷ e.log;
  }

  pub start-value :
      (n : ℕ) (listen_and_serve : Exec (Stores S B) Unit) (e : Env (Stores S B))
      → ((start (pos (suc n)) listen_and_serve e).0 ≡ ok (listen_and_serve (serving e)).0)
        × ((start (pos (suc n)) listen_and_serve e).1.state
            ≡ (listen_and_serve (serving e)).1.state)
  unfolding start rate_limit_ticker on_listened
  start-value n listen_and_serve e = elim (Result-cases (listen_and_serve (serving e)).0) [
    | inl (u, q) ↦ (ground (arith, q), ground (arith, q))
    | inr (x, q) ↦ (ground (arith, q), ground (arith, q))
  ]

  pub start-period :
      (period : ℤ) (listen_and_serve : Exec (Stores S B) Unit) (e : Env (Stores S B))
      (r : Result Unit)
      → (start period listen_and_serve e).0 ≡ ok r
      → (n : ℕ) × (period ≡ pos (suc n))
  unfolding start rate_limit_ticker
  start-period (pos zero) listen_and_serve e r h = ground (arith, h)
  start-period (pos (suc n)) listen_and_serve e r h = (n, refl)
  start-period (negsuc n) listen_and_serve e r h = ground (arith, h)

  pub init-limits :
      (viper : Viper) (path : String) (storage : Storage S) (bucket_storage : BucketStorage B)
      (config : Config) (a : App S B)
      → init viper path ≡ ok config
      → a ≡ record {
        storage = storage;
        bucket_storage = bucket_storage;
        limits = record {
          limit_login = config.limit_login;
          limit_password = config.limit_password;
          limit_ip = config.limit_ip;
        };
      }
      → a ≡ configured viper path storage bucket_storage
  unfolding settings
  init-limits viper path storage bucket_storage config a known same =
      subst
        (λ (c : Config). a ≡ record {
          storage = storage;
          bucket_storage = bucket_storage;
          limits = record {
            limit_login = c.limit_login;
            limit_password = c.limit_password;
            limit_ip = c.limit_ip;
          };
        })
        ((init_iff viper path config).0 known).2 same
