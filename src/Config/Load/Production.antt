-- ===== src/Config/Load/Production.antt =====
-- What a configuration that was loaded guarantees.
use mtdd_server.Base.{
  ℕ, Bytes, codes, true, false, none, List, [], ◌∷◌, ◌≡◌, refl, arith, ◌⊎◌, inl, inr,
}
use mtdd_server.Base.Results.{ok}
use mtdd_server.Config.{ListenMode, ServerConfig, unix, tcp}
use mtdd_server.Config.Parse.{set_value, parse_bool_env}
use mtdd_server.Config.Load.{
  Env, tls_vars, reject_set, reject_server_tls_env, validate_listen_mode,
  validate_production_config, load_config_from_env, has_value, validate_path,
}
use mtdd_server.Unix.Path.Rules.{IsSocketPath, validate_unix_socket_path_lem}

-- No variable of the list is set.
abbrev pub NoneSet : Env → List Bytes → Type 0
NoneSet env [] = Unit {0}
NoneSet env (name ∷ names) = (set_value (env name) ≡ none) × NoneSet env names

reject_set_lem : (env : Env) (names : List Bytes) → reject_set env names ≡ ok tt → NoneSet env names
unfolding reject_set
reject_set_lem env [] h = tt
reject_set_lem env (name ∷ names) h = ground (arith, reject_set_lem env names)

-- What the server may rely on once its configuration is loaded.
pub record IsLoaded (env : Env) (config : ServerConfig) : Type 0 where
  pub no_tls : NoneSet env tls_vars
  pub socket_path : config.listen_mode ≡ unix → IsSocketPath config.unix_socket_path
  pub index_in_production : config.production_mode ≡ true → has_value config.host_index ≡ true
  pub listen_in_production :
      config.production_mode ≡ true
      → (config.listen_mode ≡ unix)
        ⊎ (parse_bool_env (env (codes "MTDD_ALLOW_TCP_LISTEN")) false ≡ ok true)

validate_path_lem :
    (m : ListenMode) (path : Bytes) → validate_path m path ≡ ok tt → m ≡ unix → IsSocketPath path
validate_path_lem unix path h e = (validate_unix_socket_path_lem path).0 h
validate_path_lem tcp path h e = absurd (cc)

validate_listen_mode_lem :
    (env : Env) (m : ListenMode)
    → validate_listen_mode env m ≡ ok tt
    → (m ≡ unix) ⊎ (parse_bool_env (env (codes "MTDD_ALLOW_TCP_LISTEN")) false ≡ ok true)
unfolding validate_listen_mode
validate_listen_mode_lem env unix h = inl refl
validate_listen_mode_lem env tcp h = inr (ground arith)

-- The three checks that a configuration has passed when it is returned.
abbrev Checked : Env → ServerConfig → Type 0
Checked env config =
    (reject_server_tls_env env ≡ ok tt)
    × (validate_path config.listen_mode config.unix_socket_path ≡ ok tt)
    × (validate_production_config env config ≡ ok tt)

load_config_from_env-Checked :
    (env : Env) (hw : ℕ) (config : ServerConfig)
    → load_config_from_env env hw ≡ ok config
    → Checked env config
unfolding load_config_from_env
load_config_from_env-Checked env hw config h = ground arith

validate_production_config_lem :
    (env : Env) (config : ServerConfig)
    → validate_production_config env config ≡ ok tt
    → config.production_mode ≡ true
    → (has_value config.host_index ≡ true) × (validate_listen_mode env config.listen_mode ≡ ok tt)
unfolding validate_production_config
validate_production_config_lem env config h p = ground arith

-- A configuration that loads has no TLS variable beside it; its socket path, if it listens on one,
-- obeys the path rules; and in production it has a host index and listens on a unix socket, unless
-- MTDD_ALLOW_TCP_LISTEN is true.
pub load_config_from_env-IsLoaded :
    (env : Env) (hardware_concurrency : ℕ) (config : ServerConfig)
    → load_config_from_env env hardware_concurrency ≡ ok config
    → IsLoaded env config
unfolding reject_server_tls_env
load_config_from_env-IsLoaded env hw config h =
    let (tls, path, production) = load_config_from_env-Checked env hw config h in
    record {
      no_tls = reject_set_lem env tls_vars tls;
      socket_path = validate_path_lem config.listen_mode config.unix_socket_path path;
      index_in_production = λ p. (validate_production_config_lem env config production p).0;
      listen_in_production = λ p.
          validate_listen_mode_lem env config.listen_mode
            (validate_production_config_lem env config production p).1;
    }
