-- ===== src/Program/Defaults.antt =====
-- The two configurations: when reading one succeeds, and what both are without any setting.
use golang_fin.Prelude.{
  String, ◌≡◌, ◌≢◌, ◌↔◌, refl, ap, sym, arith, inl, inr, Bool-cases, ◌=~◌, eq_iff, none,
}
use golang_fin.Errors.{GoError, ok}
use golang_fin.Exec.{ok-inj}
use golang_fin.Viper.{Viper, ReadConfig, config_read, config_not_found, read_failed}
use golang_fin.Program.Config.{Config, init, settings, on_read, get_server_url}
use golang_fin.Cli.Config as Cli
use golang_fin.Cli.Config.{CliConfig, server_address}

module _ (viper : Viper) (path : String) (config : Config) where
  abbrev Readable : ReadConfig → Type 0
  Readable r = (x : GoError) → r ≢ read_failed x

  on_read_iff :
      (r : ReadConfig)
      → (on_read viper path r ≡ ok config) ↔ (Readable r × (config ≡ settings viper path))
  unfolding on_read
  on_read_iff config_read =
      (λ h. (λ x q. ground (arith, q), sym (ok-inj _ _ h)), λ (f, q). ap ok (sym q))
  on_read_iff config_not_found =
      (λ h. (λ x q. ground (arith, q), sym (ok-inj _ _ h)), λ (f, q). ap ok (sym q))
  on_read_iff (read_failed x) = (λ h. ground (arith, h), λ (f, q). absurd (f x refl))

  -- `Init` of the server's configuration succeeds exactly if there is a path and the reading of the
  -- file does not fail otherwise than by not finding it; the configuration is then that of the
  -- settings.
  pub init_iff : (init viper path ≡ ok config) ↔ (
      (path ≢ "") × Readable (viper.read_in_config path "config") × (config ≡ settings viper path))
  unfolding init
  init_iff = elim (Bool-cases (path =~ "")) [
    | inl q ↦
        rw (init, q)
          (λ h. ground (arith, h), λ (f, g, same). absurd (f (ground (arith, q, eq_iff path ""))))
    | inr q ↦
        rw (init, q)
          (
            λ h.
                let (f, same) = (on_read_iff _).0 h in
                (λ p. ground (arith, q, p, eq_iff path ""), f, same),
            λ (f, g, same). (on_read_iff _).1 (g, same),
          )
  ]

cli_on_read :
    (viper : Viper) (path : String) (config : CliConfig) (r : ReadConfig)
    → Cli.on_read viper path r ≡ ok config
    → config ≡ Cli.settings viper path
unfolding Cli.on_read
cli_on_read viper path config config_read h = sym (ok-inj _ _ h)
cli_on_read viper path config config_not_found h = sym (ok-inj _ _ h)
cli_on_read viper path config (read_failed x) h = ground (arith, h)

cli_init :
    (viper : Viper) (path : String) (config : CliConfig)
    → Cli.init viper path ≡ ok config
    → config ≡ Cli.settings viper path
unfolding Cli.init
cli_init viper path config h = elim (Bool-cases (path =~ "")) [
  | inl q ↦ ground (arith, h, q)
  | inr q ↦
      cli_on_read viper path config (viper.read_in_config path "config_cli") (ground (arith, h, q))
]

-- Without any setting the client of cmd/cli looks for the server at another address than it listens
-- on.
pub defaults-apart :
    (viper : Viper) (path cli_path : String) (config : Config) (cli_config : CliConfig)
    → ((path name key : String) → viper.setting path name key ≡ none)
    → init viper path ≡ ok config
    → Cli.init viper cli_path ≡ ok cli_config
    → (get_server_url config ≡ "127.0.0.1:4000") × (server_address cli_config ≡ "127.0.0.1:8080")
unfolding get_server_url server_address settings Cli.settings
defaults-apart viper path cli_path config cli_config unset known cli_known =
    rw
      (
        ((init_iff viper path config).0 known).2,
        cli_init viper cli_path cli_config cli_known,
        unset path "config" "ADDRESS",
        unset path "config" "PORT",
        unset cli_path "config_cli" "ADDRESS",
        unset cli_path "config_cli" "PORT",
      )
      (refl, refl)
