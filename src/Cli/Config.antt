-- ===== src/Cli/Config.antt =====
-- cmd/cli/config.go: the configuration of the client, read by the library viper.
use golang_fin.Prelude.{String, ◌=~◌, ◌⧺◌, if◌then◌else◌}
use golang_fin.Errors.{Result, ok, err, new_error}
use golang_fin.Viper.{Viper, ReadConfig, read_failed, get_string}

-- `Config` and `LoggerConf`
pub record CliConfig : Type 0 where
  pub level : String
  pub address : String
  pub port : String

module _ (viper : Viper) (path : String) where
  unfoldable pub settings : CliConfig
  settings = record {
    level = get_string viper path "config_cli" "LOG_LEVEL" "info";
    address = get_string viper path "config_cli" "ADDRESS" "127.0.0.1";
    port = get_string viper path "config_cli" "PORT" "8080";
  }

  unfoldable pub on_read : ReadConfig → Result CliConfig
  on_read (read_failed x) = err x
  on_read _ = ok settings

  -- `Init`
  unfoldable pub init : Result CliConfig
  unfolding on_read
  init =
      if path =~ ""
      then err (new_error "path can't be empty")
      else on_read (viper.read_in_config path "config_cli")

-- The address that `main` takes from `GetAddress` and `GetPort`
unfoldable pub server_address : CliConfig → String
server_address config = config.address ⧺ ":" ⧺ config.port
