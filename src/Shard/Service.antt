-- ===== src/Shard/Service.antt =====
-- MtddShardServiceImpl (src/service/mtdd_shard_service.cpp): the state of the service, and Connect,
-- QueryStream and Disconnect. One call runs at a time, and log lines are left out; host_index is
-- the number that the request carries.
use mtdd_server.Base.{
  ℕ, Bytes, codes, Bool, true, false, not, ◌||◌, Option, none, some, [], if◌then◌else◌, is_empty,
}
use mtdd_server.Base.Int.{ℤ, pos, is_positive, equal_ℤ}
use mtdd_server.Base.Results.{Result, ok, throw}
use mtdd_server.Config.{ServerConfig}
use mtdd_server.Health.Monitor
use mtdd_server.Health.Monitor.{Monitor, make_monitor}
use mtdd_server.Pg.Libpq.{Libpq}
use mtdd_server.Pg.Conn
use mtdd_server.Pg.Conn.{ConnectParams, World}
use mtdd_server.Pg.Pool
use mtdd_server.Pg.Pool.{ConnectionManager}
use mtdd_server.Pg.Sessions.{SessionStore, make_store}
use mtdd_server.Pg.Stream.Request.{QueryRequest}
use mtdd_server.Shard.Chunks.{Status, status_ok, invalid_argument}

-- mtdd::ConnectRequest, less the fields that the server does not read.
pub record ConnectRequest : Type 0 where
  pub host_index : ℤ
  pub dbname : Bytes
  pub user : Bytes
  pub password : Bytes
  pub port : ℤ
  pub database : Bytes

-- mtdd::ConnectResponse and mtdd::DisconnectResponse
pub record Response : Type 0 where
  pub accepted : Bool
  pub message : Bytes

-- The members, and the connections of the process. The executor is there or not: QueryStream only
-- asks for that.
pub record Shard (S : Type 0) : Type 0 where
  pub config : ServerConfig
  pub health_monitor : Option Monitor
  pub pool : ConnectionManager
  pub sessions : SessionStore
  pub connect_params : Option ConnectParams
  pub has_executor : Bool
  pub world : World S
  pub cursor_counter : ℕ

-- The constructor.
unfoldable pub make_shard : {S : Type 0} → ServerConfig → Option Monitor → World S → Shard S
make_shard config monitor world = record {
  config = config;
  health_monitor = monitor;
  pool = Pool.initial;
  sessions = make_store config.max_sessions;
  connect_params = none;
  has_executor = false;
  world = world;
  cursor_counter = 0;
}

abbrev pub resolve_db_name : ConnectRequest → Bytes
resolve_db_name request = if not (is_empty request.dbname) then request.dbname else request.database

unfoldable pub build_connect_params : ServerConfig → ConnectRequest → ConnectParams
build_connect_params config request = record {
  pg_host = config.pg_host;
  port = if is_positive request.port then request.port else pos 5432;
  dbname = resolve_db_name request;
  user = request.user;
  password = request.password;
  connect_timeout_sec = config.pg_connect_timeout_sec;
  statement_timeout_ms = config.statement_timeout_ms;
}

-- The message, where the index is refused.
abbrev pub refused_index : Bool → Option ℤ → ℤ → Option Bytes
refused_index production_mode none index =
    if production_mode then some (codes "MTDD_HOST_INDEX is required in production") else none
refused_index production_mode (some wanted) index =
    if not (equal_ℤ index wanted) then some (codes "host_index mismatch") else none

unfoldable pub validate_host_index : ServerConfig → ℤ → Option Bytes
validate_host_index config index = refused_index config.production_mode config.host_index index

-- The message, where the request is refused.
unfoldable pub ensure_query_request : QueryRequest → Option Bytes
ensure_query_request request =
    if not (is_empty request.name)
    then some (codes "prepared statements are not supported")
    else if not (equal_ℤ request.result_format (pos 1))
    then some (codes "result_format must be 1 (libpq binary)")
    else none

module _ {S : Type 0} (pq : Libpq S) where
  -- The monitor's OnConnectSuccess, which may use a connection of its own.
  abbrev report_success : ConnectParams → ℤ → Option Monitor → World S → Option Monitor × World S
  report_success params timeout none w = (none, w)
  report_success params timeout (some m) w =
      let (m', w') = Monitor.on_connect_success pq params timeout m w in (some m', w')

  abbrev report_failure : Option Monitor → Option Monitor
  report_failure none = none
  report_failure (some m) = some (Monitor.on_connect_failure m)

  -- Behind ConnectionManager::Connect.
  abbrev pub connected :
      ConnectParams → Result (Unit {0}) × ConnectionManager → World S → Shard S → Response × Shard S
  connected params (throw e, pool) w s = (
    record { accepted = false; message = e },
    record s { pool = pool; world = w; health_monitor = report_failure s.health_monitor },
  )
  connected params (ok u, pool) w s =
      let (m, w') = report_success params s.config.statement_timeout_ms s.health_monitor w in
      (
        record { accepted = true; message = codes "connected" },
        record s {
          pool = pool;
          world = w';
          connect_params = some params;
          has_executor = true;
          health_monitor = m;
        },
      )

  -- Behind the validation of the parameters.
  unfoldable pub connect_pool : ConnectParams → Shard S → Response × Shard S
  connect_pool params s =
      let pool = Pool.configure params s.config.pool_size s.pool in
      let (opened, w) = Conn.connect pq pool.params (pos 0) s.world in
      connected params (Pool.connect opened pool) w s

  -- Behind the validation of the index.
  abbrev pub connect_checked : Option Bytes → ConnectRequest → Shard S → Response × Shard S
  connect_checked (some message) request s = (record { accepted = false; message = message }, s)
  connect_checked none request s =
      let params = build_connect_params s.config request in
      if is_empty params.dbname || is_empty params.user
      then (record { accepted = false; message = codes "dbname and user are required" }, s)
      else connect_pool params s

  unfoldable pub connect : ConnectRequest → Shard S → Response × Shard S
  unfolding connect_pool
  connect request s = connect_checked (validate_host_index s.config request.host_index) request s

-- Disconnect: the status, and the response where it is OK.
abbrev disconnected : Option Bytes → Status × Option Response
disconnected (some message) = (invalid_argument message, none)
disconnected none = (status_ok, some (record { accepted = true; message = [] }))

unfoldable pub disconnect : {S : Type 0} → ℤ → Shard S → (Status × Option Response) × Shard S
disconnect index s = (disconnected (validate_host_index s.config index), s)
