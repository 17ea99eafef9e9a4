-- ===== src/Program/Config.antt =====
-- cmd/antibruteforce/config.go: the configuration of the server, read by the library viper.
use golang_fin.Prelude.{ℕ, ◌*◌, String, ◌=~◌, ◌⧺◌, if◌then◌else◌, ◌^◌}
use golang_fin.Prelude.Int.{ℤ, pos}
use golang_fin.Errors.{Result, ok, err, new_error}
use golang_fin.StorageData.{Limits}
use golang_fin.SqlDb.{DbConfig}
use golang_fin.Viper.{Viper, ReadConfig, read_failed, get_string, get_int, get_duration}

-- `time.Second`; a duration is a number of nanoseconds.
abbrev pub second : ℕ
second = 10 ^ 9

-- `LoggerConf` and `Config`
pub record LoggerConf : Type 0 where
  pub level : String

pub record Config : Type 0 where
  pub logger : LoggerConf
  pub server_shutdown_timeout : ℤ
  pub db_max_connection_lifetime : ℤ
  pub db_timeout : ℤ
  pub limit_time_check : ℤ
  pub address : String
  pub port : String
  pub redis_address : String
  pub redis_port : String
  pub db_address : String
  pub db_port : String
  pub db_name : String
  pub db_user : String
  pub db_password : String
  pub db_max_open_connections : ℤ
  pub db_max_idle_connections : ℤ
  pub limit_login : ℤ
  pub limit_password : ℤ
  pub limit_ip : ℤ

module _ (viper : Viper) (path : String) where
  -- The fields, each by its key and its default
  unfoldable pub settings : Config
  settings = record {
    logger = record { level = get_string viper path "config" "LOG_LEVEL" "info" };
    server_shutdown_timeout =
        get_duration viper path "config" "SERVER_SHUTDOWN_TIMEOUT" (pos (30 * second));
    db_max_connection_lifetime =
        get_duration viper path "config" "DB_MAX_CONN_LIFETIME" (pos (3 * (60 * second)));
    db_timeout = get_duration viper path "config" "DB_TIMEOUT" (pos (5 * second));
    limit_time_check = get_duration viper path "config" "LIMIT_TIMECHECK" (pos (60 * second));
    address = get_string viper path "config" "ADDRESS" "127.0.0.1";
    port = get_string viper path "config" "PORT" "4000";
    redis_address = get_string viper path "config" "REDIS_ADDRESS" "127.0.0.1";
    redis_port = get_string viper path "config" "REDIS_PORT" "6379";
    db_address = get_string viper path "config" "DB_ADDRESS" "127.0.0.1";
    db_port = get_string viper path "config" "DB_PORT" "5432";
    db_name = get_string viper path "config" "POSTGRES_DB" "OTUSFin";
    db_user = get_string viper path "config" "POSTGRES_USER" "postgres";
    db_password = get_string viper path "config" "POSTGRES_PASSWORD" "SecurePass";
    db_max_open_connections = get_int viper path "config" "DB_MAX_OPEN_CONNS" (pos 10);
    db_max_idle_connections = get_int viper path "config" "DB_MAX_IDLE_CONNS" (pos 10);
    limit_login = get_int viper path "config" "LIMIT_LOGIN" (pos 10);
    limit_password = get_int viper path "config" "LIMIT_PASSWORD" (pos 100);
    limit_ip = get_int viper path "config" "LIMIT_IP" (pos 1000);
  }

  unfoldable pub on_read : ReadConfig → Result Config
  on_read (read_failed x) = err x
  on_read _ = ok settings

  -- `Init`: the new configuration, or the error with which the old one stays. A file that is not
  -- there is no error.
  unfoldable pub init : Result Config
  unfolding on_read
  init =
      if path =~ ""
      then err (new_error "no path provided")
      else on_read (viper.read_in_config path "config")

-- `GetServerURL`
unfoldable pub get_server_url : Config → String
get_server_url config = config.address ⧺ ":" ⧺ config.port

-- What the parts read by the getters: the application its limits, the SQL storage its data source,
-- the Redis storage its address.
unfoldable pub limits_of : Config → Limits
limits_of config = record {
  limit_login = config.limit_login;
  limit_password = config.limit_password;
  limit_ip = config.limit_ip;
}

unfoldable pub db_config_of : Config → DbConfig
db_config_of config = record {
  user = config.db_user;
  password = config.db_password;
  address = config.db_address;
  port = config.db_port;
  name = config.db_name;
}

unfoldable pub redis_addr : Config → String
redis_addr config = config.redis_address ⧺ ":" ⧺ config.redis_port
