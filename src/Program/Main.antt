-- ===== src/Program/Main.antt =====
-- cmd/antibruteforce/main.go, and `Start` of internal/server/http/server.go: the server program from
-- its configuration to its exit status.
use golang_fin.Prelude.{ℕ, String, List, [], ◌∷◌, ◌⧺◌, Bool, true, false, if◌then◌else◌}
use golang_fin.Prelude.Int.{ℤ}
use golang_fin.Errors.{GoError, Result, ok, err, error_text, server_closed}
use golang_fin.StorageData.{Context}
use golang_fin.Exec.{Exec, pure, lift, catch, log_info, log_error, log_fatal, ◌>>=◌, ◌>>◌}
use golang_fin.Interfaces.{Storage, BucketStorage}
use golang_fin.App.Service.{App, Stores, in_storage, in_buckets}
use golang_fin.App.Ticker.{rate_limit_ticker}
use golang_fin.Viper.{Viper}
use golang_fin.Program.Config.{Config, limits_of, init}

-- `errors.Is(err, http.ErrServerClosed)`
abbrev is_server_closed : GoError → Bool
is_server_closed server_closed = true
is_server_closed _ = false

module _ {S B : Type 0} where
  -- `app.New`
  unfoldable pub new_app : Storage S → BucketStorage B → Config → App S B
  unfolding limits_of
  new_app storage bucket_storage config = record {
    storage = storage;
    bucket_storage = bucket_storage;
    limits = limits_of config;
  }

  -- The names of the files in /etc/antibf
  unfoldable pub log_files : List String → Exec (Stores S B) Unit
  log_files [] = pure tt
  log_files (name ∷ files) = log_info name >> log_files files

  -- The two storages, the SQL storage first
  unfoldable pub init_storages : Storage S → BucketStorage B → Context → Exec (Stores S B) Unit
  init_storages storage bucket_storage ctx = do
    catch (in_storage (storage.init ctx))
        (λ x. log_fatal ("SQL storage Init fatal failure:" ⧺ error_text x) x)
    catch (in_buckets (bucket_storage.init ctx))
        (λ x. log_fatal ("RedisDB Init fatal failure:" ⧺ error_text x) x)

  -- From the logger to the application; what `os.ReadDir` returned is given. An error ends the
  -- program by `Fatal`.
  unfoldable pub start_up :
      Storage S
      → BucketStorage B
      → String
      → Config
      → Result (List String)
      → Context
      → Exec (Stores S B) (App S B)
  start_up storage bucket_storage config_file_path config read ctx = do
    log_info ("Config path: " ⧺ config_file_path)
    log_info ("Server Address: " ⧺ config.address)
    log_info ("SQL Address:" ⧺ config.db_address ⧺ ":" ⧺ config.db_port)
    log_info ("Redis Address:" ⧺ config.redis_address ⧺ ":" ⧺ config.redis_port)
    files ← catch (lift read) (λ x. log_fatal (error_text x) x)
    log_files files
    init_storages storage bucket_storage ctx
    pure (new_app storage bucket_storage config)

  -- `Start` after `ListenAndServe`; `ErrServerClosed` is returned once the context is done.
  unfoldable pub on_listened : Result Unit → Exec (Stores S B) (Result Unit)
  on_listened (ok u) = pure (ok u)
  on_listened (err x) =
      if is_server_closed x
      then pure (err x)
      else (do log_error ("Server failed to start: " ⧺ error_text x); pure (err x))

  abbrev pub as_value : {A : Type 0} → Exec (Stores S B) A → Exec (Stores S B) (Result A)
  as_value m e = let (r, e') = m e in (ok r, e')

  -- `Start`, whose error is a value; its own failure is a panic of the ticker. `listen_and_serve` is
  -- all that the HTTP server does until it is closed.
  unfoldable pub start : ℤ → Exec (Stores S B) Unit → Exec (Stores S B) (Result Unit)
  unfolding rate_limit_ticker on_listened
  start period listen_and_serve = do
    log_info "AntiBF is running"
    rate_limit_ticker period
    listened ← as_value listen_and_serve
    on_listened listened

  -- The status that the program ends with after `Start`
  unfoldable pub exit_status : Result Unit → Exec (Stores S B) ℕ
  exit_status (ok u) = pure 0
  exit_status (err x) = do log_error ("Failed to start http server:" ⧺ error_text x); pure 1

  -- `main`: what fails before `Start` is a panic or a `Fatal`. The logger is made of a level, which
  -- must be known.
  unfoldable pub run_server :
      Viper
      → (String → Result Unit)
      → Storage S
      → BucketStorage B
      → (App S B → Exec (Stores S B) Unit)
      → String
      → Result (List String)
      → Context
      → Exec (Stores S B) ℕ
  unfolding init
  run_server viper new_logger storage bucket_storage listen_and_serve config_file_path read ctx = do
    config ← lift (init viper config_file_path)
    lift (new_logger config.logger.level)
    antibf ← start_up storage bucket_storage config_file_path config read ctx
    started ← start config.limit_time_check (listen_and_serve antibf)
    exit_status started
