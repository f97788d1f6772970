-- ===== src/Config/Load.antt =====
-- LoadConfigFromEnv of src/config.cpp. The environment is a function from names to values, and the
-- number of hardware threads is an argument.
pub mod Production
use mtdd_server.Base.{
  ℕ, Bytes, codes, Bool, true, false, not, ◌||◌, ◌&&◌, Option, none, some, List, [], ◌∷◌, ◌++◌,
  if◌then◌else◌, ◌≡◌, refl,
}
use mtdd_server.Base.Int.{ℤ, pos, negsuc, int_cast, is_positive}
use mtdd_server.Base.Results.{Result, ok, throw, throw_if, ◌>>=◌, ◌>>◌}
use mtdd_server.Config.{ListenMode, ServerConfig, unix, tcp, default_config}
use mtdd_server.Config.Parse.{
  set_value, parse_positive_int, parse_non_negative_int, parse_octal_mode,
  parse_optional_host_index, parse_bool_env, is_production_env,
}
use mtdd_server.Config.Listen.{parse_listen}
use mtdd_server.Unix.Path.{validate_unix_socket_path}

abbrev pub Env : Type 0
Env = Bytes → Option Bytes

-- kTlsVars
abbrev pub tls_vars : List Bytes
tls_vars =
    codes "MTDD_GRPC_TLS"
    ∷ codes "MTDD_GRPC_TLS_CERT_FILE"
    ∷ codes "MTDD_GRPC_TLS_KEY_FILE"
    ∷ codes "MTDD_GRPC_TLS_CLIENT_CA_FILE"
    ∷ []

abbrev is_set : Option Bytes → Bool
is_set value = elim (set_value value) [ none ↦ false | some _ ↦ true ]

-- The loop of RejectServerTlsEnv.
unfoldable pub reject_set : Env → List Bytes → Result (Unit {0})
reject_set env [] = ok tt
reject_set env (name ∷ names) = do
  throw_if (is_set (env name)) (
      name
      ++ codes " is not supported: mtdd_server uses plain gRPC over a unix domain socket; "
      ++ codes "terminate TLS and compression at nginx")
  reject_set env names

unfoldable pub reject_server_tls_env : Env → Result (Unit {0})
unfolding reject_set
reject_server_tls_env env = reject_set env tls_vars

abbrev pub has_value {ℓ} : {A : Type ℓ} → Option A → Bool
has_value none = false
has_value (some a) = true

abbrev pub is_unix : ListenMode → Bool
is_unix unix = true
is_unix tcp = false

-- The test of the listen mode.
unfoldable pub validate_listen_mode : Env → ListenMode → Result (Unit {0})
validate_listen_mode env unix = ok tt
validate_listen_mode env tcp = do
  allow ← parse_bool_env (env (codes "MTDD_ALLOW_TCP_LISTEN")) false
  throw_if (not allow) (
      codes "MTDD_LISTEN must be a unix: path in production "
      ++ codes "(set MTDD_ALLOW_TCP_LISTEN=1 for dev-only TCP)")

unfoldable pub validate_production_config : Env → ServerConfig → Result (Unit {0})
validate_production_config env config = if not config.production_mode then ok tt else (do
  throw_if (not (has_value config.host_index))
      (codes "MTDD_HOST_INDEX is required when MTDD_ENV=production")
  validate_listen_mode env config.listen_mode)

-- `pg_host` is replaced where the variable is set.
abbrev or_default : Option Bytes → Bytes → Bytes
or_default value d = elim (set_value value) [ none ↦ d | some s ↦ s ]

-- The value of MTDD_GRPC_MAX_THREADS where it is not set: the hardware's threads, or 4.
abbrev default_threads : ℕ → ℤ
default_threads hardware_concurrency =
    let hw = int_cast (pos hardware_concurrency) in if is_positive hw then hw else pos 4

-- The path rules hold for a unix target.
abbrev validate_path : ListenMode → Bytes → Result (Unit {0})
validate_path unix path = validate_unix_socket_path path
validate_path tcp path = ok tt

-- The fields read between the listen target and the validation, in the order of the source.
unfoldable pub load_fields : Env → ℕ → ServerConfig → Result ServerConfig
load_fields env hardware_concurrency c = do
  let get = λ (name : Bytes). env name
  let positive = λ (name : Bytes) (d : ℤ). parse_positive_int name (env name) d
  host_index ← parse_optional_host_index (get (codes "MTDD_HOST_INDEX"))
  pool_size ← positive (codes "MTDD_POOL_SIZE") c.pool_size
  fetch_rows ← positive (codes "MTDD_PG_FETCH_ROWS") c.pg_fetch_rows
  wire_batch_rows ← positive (codes "MTDD_PG_WIRE_BATCH_ROWS") c.pg_wire_batch_rows
  connect_timeout ← positive (codes "MTDD_PG_CONNECT_TIMEOUT_SEC") c.pg_connect_timeout_sec
  max_sessions ← positive (codes "MTDD_MAX_SESSIONS") c.max_sessions
  threads ← positive (codes "MTDD_GRPC_MAX_THREADS") (default_threads hardware_concurrency)
  let production = is_production_env (get (codes "MTDD_ENV"))
  reflection ← parse_bool_env (get (codes "MTDD_GRPC_REFLECTION")) (not production)
  notify ← parse_bool_env (get (codes "MTDD_NOTIFY_ENABLED")) true
  statement_timeout ←
      parse_non_negative_int (codes "MTDD_STATEMENT_TIMEOUT_MS")
        (get (codes "MTDD_STATEMENT_TIMEOUT_MS")) (pos 0)
  query_bytes ← positive (codes "MTDD_MAX_QUERY_TEXT_BYTES") c.max_query_text_bytes
  payload_bytes ← positive (codes "MTDD_MAX_NOTIFY_PAYLOAD_BYTES") c.max_notify_payload_bytes
  channel_bytes ← positive (codes "MTDD_MAX_NOTIFY_CHANNEL_BYTES") c.max_notify_channel_bytes
  probe_interval ← positive (codes "MTDD_HEALTH_PROBE_INTERVAL_SEC") c.health_probe_interval_sec
  require_pg ← parse_bool_env (get (codes "MTDD_HEALTH_REQUIRE_PG")) true
  socket_mode ←
      parse_octal_mode (codes "MTDD_UNIX_SOCKET_MODE") (get (codes "MTDD_UNIX_SOCKET_MODE"))
        c.unix_socket_mode
  dir_mode ←
      parse_octal_mode (codes "MTDD_UNIX_SOCKET_DIR_MODE") (get (codes "MTDD_UNIX_SOCKET_DIR_MODE"))
        c.unix_socket_dir_mode
  create_dir ← parse_bool_env (get (codes "MTDD_UNIX_SOCKET_CREATE_DIR")) c.unix_socket_create_dir
  ok (record {
    listen_mode = c.listen_mode;
    unix_socket_path = c.unix_socket_path;
    listen_address = c.listen_address;
    listen_port = c.listen_port;
    unix_socket_mode = socket_mode;
    unix_socket_dir_mode = dir_mode;
    unix_socket_create_dir = create_dir;
    host_index = host_index;
    pg_host = or_default (get (codes "MTDD_PG_HOST")) c.pg_host;
    pool_size = pool_size;
    pg_fetch_rows = fetch_rows;
    pg_wire_batch_rows = wire_batch_rows;
    pg_connect_timeout_sec = connect_timeout;
    max_sessions = max_sessions;
    grpc_max_threads = threads;
    production_mode = production;
    grpc_reflection = reflection;
    notify_enabled = notify;
    statement_timeout_ms = statement_timeout;
    max_query_text_bytes = query_bytes;
    max_notify_payload_bytes = payload_bytes;
    max_notify_channel_bytes = channel_bytes;
    health_probe_interval_sec = probe_interval;
    health_require_pg = require_pg;
  })

unfoldable pub load_config_from_env : Env → ℕ → Result ServerConfig
load_config_from_env env hardware_concurrency = do
  reject_server_tls_env env
  listening ← parse_listen (env (codes "MTDD_LISTEN")) default_config
  config ← load_fields env hardware_concurrency listening
  validate_path config.listen_mode config.unix_socket_path
  validate_production_config env config
  ok config
