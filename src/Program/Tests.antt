-- ===== src/Program/Tests.antt =====
-- The server program over the mock and a bucket storage in memory, and the configurations of both
-- programs without settings.
use golang_fin.Prelude.{ℕ, suc, ◌≡◌, refl, [], ◌∷◌, none, false}
use golang_fin.Prelude.Int.{pos}
use golang_fin.Errors.{Result, ok, err, server_closed}
use golang_fin.StorageData.{Context}
use golang_fin.Exec.{Exec, Env}
use golang_fin.StorageSqlMock as Mock
use golang_fin.StorageSqlMock.{Mock, mock_storage}
use golang_fin.Redis.{redis_storage}
use golang_fin.Redis as Redis
use golang_fin.Redis.Memory.{Memory, memory_client, flush_db}
use golang_fin.App.Service.{App, Stores}
use golang_fin.App.Ticker.{rate_limit_ticker}
use golang_fin.Viper.{Viper, config_not_found}
use golang_fin.Program.Config.{Config, init, settings, get_server_url}
use golang_fin.Program.Main.{
  new_app, start_up, start, init_storages, log_files, on_listened, exit_status, run_server,
}
use golang_fin.Program.StartUp.{Succeeded, configured, status_of, serving}
use golang_fin.Program.Status.{run_server-status, run_server-served}
use golang_fin.Program.Defaults.{defaults-apart}
use golang_fin.Cli.Config as Cli
use golang_fin.Cli.Config.{CliConfig, server_address}

abbrev viper : Viper
viper = record {
  read_in_config = λ path name. config_not_found;
  setting = λ path name key. none;
  to_int = λ s. pos 0;
  to_duration = λ s. pos 0;
}

abbrev fresh : Env (Stores Mock Memory)
fresh = record {
  state = record {
    storage = record { whitelist = []; blacklist = []; id_white = 0; id_black = 0 };
    buckets = ("l_ann", "2") ∷ [];
  };
  log = [];
}

abbrev live : Context
live = record { done = false }

abbrev default_config : Config
default_config = settings viper "./configs/"

abbrev started : Result (App Mock Memory)
started =
    (start_up (mock_storage (λ l. l)) (redis_storage memory_client) "./configs/" default_config
      (ok ("config.env" ∷ [])) live fresh).0

abbrev new_one : App Mock Memory
new_one = new_app (mock_storage (λ l. l)) (redis_storage memory_client) default_config

starts : started ≡ ok new_one
unfolding start_up init_storages log_files new_app Mock.init Redis.init flush_db
starts = refl

-- A server that is shut down at once
abbrev closed_at_once : App Mock Memory → Exec (Stores Mock Memory) Unit
closed_at_once a e = (err server_closed, e)

abbrev run : Result ℕ × Env (Stores Mock Memory)
run =
    run_server viper (λ level. ok tt) (mock_storage (λ l. l)) (redis_storage memory_client)
      closed_at_once "./configs/" (ok ("config.env" ∷ [])) live fresh

graceful : run.0 ≡ ok 1
unfolding run_server init settings start_up init_storages log_files new_app Mock.init Redis.init
    flush_db start rate_limit_ticker on_listened exit_status
graceful = refl

config_known : init viper "./configs/" ≡ ok default_config
unfolding init
config_known = refl

minute : default_config.limit_time_check ≡ pos (suc 59999999999)
unfolding settings
minute = refl

abbrev begun : Env (Stores Mock Memory)
begun =
    (start_up (mock_storage (λ l. l)) (redis_storage memory_client) "./configs/" default_config
      (ok ("config.env" ∷ [])) live fresh).1

run_server-status_example :
    (run.0 ≡ ok (status_of (closed_at_once new_one (serving begun)).0))
    × (run.1.state ≡ (closed_at_once new_one (serving begun)).1.state)
run_server-status_example =
    run_server-status viper (λ level. ok tt) (mock_storage (λ l. l)) (redis_storage memory_client)
      closed_at_once "./configs/" (ok ("config.env" ∷ [])) live fresh default_config new_one
      59999999999 config_known refl starts minute

abbrev served_one : App Mock Memory
served_one = configured viper "./configs/" (mock_storage (λ l. l)) (redis_storage memory_client)

run_server-served_example :
    Succeeded ((mock_storage (λ l. l)).init live) fresh.state.storage
    × Succeeded ((redis_storage memory_client).init live) fresh.state.buckets
    × (e' : Env (Stores Mock Memory)) × (1 ≡ status_of (closed_at_once served_one e').0)
    × (run.1.state ≡ (closed_at_once served_one e').1.state)
run_server-served_example =
    run_server-served viper (λ level. ok tt) (mock_storage (λ l. l)) (redis_storage memory_client)
      closed_at_once "./configs/" (ok ("config.env" ∷ [])) live fresh 1 graceful

abbrev cli_default : CliConfig
cli_default = Cli.settings viper "./configs/"

cli_known : Cli.init viper "./configs/" ≡ ok cli_default
unfolding Cli.init
cli_known = refl

defaults-apart_example :
    (get_server_url default_config ≡ "127.0.0.1:4000")
    × (server_address cli_default ≡ "127.0.0.1:8080")
defaults-apart_example =
    defaults-apart viper "./configs/" "./configs/" default_config cli_default
      (λ path name key. refl) config_known cli_known
