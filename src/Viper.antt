-- ===== src/Viper.antt =====
-- The library viper, a parameter of the two configurations: it answers a key by the environment,
-- else by the file that has been read, else by the default that was set for the key.
use golang_fin.Prelude.{String, Option, none, some}
use golang_fin.Prelude.Int.{ℤ}
use golang_fin.Errors.{GoError}

-- What `ReadInConfig` returns; `ConfigFileNotFoundError` is told apart from the other errors.
pub data ReadConfig : Type 0 where
  config_read config_not_found : ReadConfig
  read_failed : GoError → ReadConfig

-- The reading of a file of a path and a name; what the environment or the file that was read says
-- about a key, if one of them does; and how a text is cast to an int and to a duration, in
-- nanoseconds.
pub record Viper : Type 0 where
  pub read_in_config : String → String → ReadConfig
  pub setting : String → String → String → Option String
  pub to_int : String → ℤ
  pub to_duration : String → ℤ

module _ (viper : Viper) (path name : String) where
  abbrev or_else : {A B : Type 0} → (A → B) → Option A → B → B
  or_else cast none default = default
  or_else cast (some s) default = cast s

  -- `GetString`, `GetInt` and `GetDuration` of a key with the default that was set for it
  abbrev pub get_string : String → String → String
  get_string key default = or_else (λ s. s) (viper.setting path name key) default

  abbrev pub get_int : String → ℤ → ℤ
  get_int key default = or_else viper.to_int (viper.setting path name key) default

  abbrev pub get_duration : String → ℤ → ℤ
  get_duration key default = or_else viper.to_duration (viper.setting path name key) default
