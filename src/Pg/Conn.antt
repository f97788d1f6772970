-- ===== src/Pg/Conn.antt =====
-- src/pg/pq_conn.cpp: opening, probing and closing one connection. The state beside the server's
-- own is what the process holds: the connections that are not finished and the number of results
-- that are not cleared; `sent` lists the statements that were executed, in order. A pointer `error_out` is never null at the calls, and is the error returned.
pub mod Balance
use mtdd_server.Base.{
  ℕ, suc, ◌+◌, ◌-◌, Bytes, codes, Bool, true, false, not, ◌&&◌, Option, none, some, List, [], ◌∷◌,
  ◌++◌, if◌then◌else◌, ◌≡◌, refl, erase, ℕ_discrete,
}
use mtdd_server.Base.Int.{ℤ, pos, is_positive}
use mtdd_server.Base.Decimal.{to_string_ℤ}
use mtdd_server.Base.Results.{Result, ok, throw}
use mtdd_server.Pg.Libpq.{Libpq, Param, PgResult, ExecStatus, command_ok, tuples_ok}

-- ConnectParams
pub record ConnectParams : Type 0 where
  pub pg_host : Bytes
  pub port : ℤ
  pub dbname : Bytes
  pub user : Bytes
  pub password : Bytes
  pub connect_timeout_sec : ℤ
  pub statement_timeout_ms : ℤ

abbrev pub default_params : ConnectParams
default_params = record {
  pg_host = [];
  port = pos 5432;
  dbname = [];
  user = [];
  password = [];
  connect_timeout_sec = pos 5;
  statement_timeout_ms = pos 0;
}

pub record World (S : Type 0) : Type 0 where
  pub server : S
  pub open_connections : List ℕ
  pub live_results : ℕ
  pub sent : List Bytes

unfoldable pub build_conninfo : ConnectParams → Bytes
build_conninfo p =
    codes "host="
    ++ p.pg_host
    ++ codes " port="
    ++ to_string_ℤ p.port
    ++ codes " dbname="
    ++ p.dbname
    ++ codes " user="
    ++ p.user
    ++ codes " password="
    ++ p.password
    ++ codes " application_name=mtdd_server connect_timeout="
    ++ to_string_ℤ p.connect_timeout_sec

abbrev pub is_command_ok : ExecStatus → Bool
is_command_ok command_ok = true
is_command_ok _ = false

abbrev pub is_tuples_ok : ExecStatus → Bool
is_tuples_ok tuples_ok = true
is_tuples_ok _ = false

module _ {S : Type 0} (pq : Libpq S) where
  -- A result that is returned is held until it is cleared.
  abbrev pub hold : Option PgResult × S → World S → Option PgResult × World S
  hold (none, s) w = (none, record w { server = s })
  hold (some result, s) w =
      (some result, record w { server = s; live_results = suc w.live_results })

  -- PQexec
  unfoldable pub exec : ℕ → Bytes → World S → Option PgResult × World S
  exec conn sql w = hold (pq.exec conn sql w.server) (record w { sent = w.sent ++ sql ∷ [] })

  -- PQexecParams
  unfoldable pub exec_params : ℕ → Bytes → List Param → ℤ → World S → Option PgResult × World S
  exec_params conn sql params result_format w =
      hold (pq.exec_params conn sql params result_format w.server)
        (record w { sent = w.sent ++ sql ∷ [] })

  -- PQclear, which does nothing to a null pointer.
  unfoldable pub clear : Option PgResult → World S → World S
  clear none w = w
  clear (some result) w = record w { live_results = w.live_results - 1 }

  abbrev opened : Option ℕ × S → World S → Option ℕ × World S
  opened (none, s) w = (none, record w { server = s })
  opened (some conn, s) w =
      (some conn, record w { server = s; open_connections = conn ∷ w.open_connections })

  -- PQconnectdb
  unfoldable pub connectdb : Bytes → World S → Option ℕ × World S
  connectdb conninfo w = opened (pq.connectdb conninfo w.server) w

  -- PQfinish
  unfoldable pub finish : ℕ → World S → World S
  finish conn w = record w {
    server = pq.finish conn w.server;
    open_connections = erase ℕ_discrete conn w.open_connections;
  }

  -- The result of SET statement_timeout.
  unfoldable pub timeout_set : Option PgResult → World S → Result (Unit {0}) × World S
  unfolding clear
  timeout_set none w = (throw (codes "failed to set statement_timeout"), w)
  timeout_set (some result) w = (
    (if is_command_ok result.status then ok tt else throw result.error_message),
    clear (some result) w,
  )

  unfoldable pub apply_statement_timeout : ℕ → ℤ → World S → Result (Unit {0}) × World S
  unfolding timeout_set exec
  apply_statement_timeout conn statement_timeout_ms w =
      if not (is_positive statement_timeout_ms)
      then (ok tt, w)
      else (let (result, w') =
            exec conn (codes "SET statement_timeout = " ++ to_string_ℤ statement_timeout_ms) w in
          timeout_set result w')

  -- The probe's verdict: an error if it is not a TUPLES_OK result.
  abbrev pub probe_error : ℕ → Option PgResult → World S → Option Bytes
  probe_error conn none w = some (pq.connection_error conn w.server)
  probe_error conn (some result) w =
      if is_tuples_ok result.status then none else some result.error_message

  -- Behind the timeout: the connection, or its end.
  unfoldable pub after_timeout : ℕ → Result (Unit {0}) × World S → Result ℕ × World S
  unfolding finish
  after_timeout conn (ok u, w) = (ok conn, w)
  after_timeout conn (throw e, w) = (throw e, finish conn w)

  -- Behind the probe: the timeout, where the probe has no error.
  unfoldable pub after_probe : ℕ → ℤ → Option Bytes → Option PgResult → World S → Result ℕ × World S
  unfolding after_timeout apply_statement_timeout clear
  after_probe conn timeout_ms (some e) probe w = (throw e, finish conn (clear probe w))
  after_probe conn timeout_ms none probe w =
      after_timeout conn (apply_statement_timeout conn timeout_ms (clear probe w))

  -- The probe of a connection.
  unfoldable pub probed : ℕ → ℤ → Option PgResult × World S → Result ℕ × World S
  unfolding after_probe
  probed conn timeout_ms (probe, w) = after_probe conn timeout_ms (probe_error conn probe w) probe w

  -- Behind PQconnectdb: the status check, and the probe.
  unfoldable pub after_open : ℤ → Option ℕ × World S → Result ℕ × World S
  unfolding probed exec finish
  after_open timeout_ms (none, w) = (throw (codes "PQconnectdb returned null"), w)
  after_open timeout_ms (some conn, w) =
      if not (pq.connection_ok conn w.server)
      then (throw (pq.connection_error conn w.server), finish conn w)
      else probed conn timeout_ms (exec conn (codes "SELECT 1") w)

  -- PqConnection::Connect
  unfoldable pub connect : ConnectParams → ℤ → World S → Result ℕ × World S
  unfolding after_open connectdb
  connect params statement_timeout_ms w =
      after_open
        (if is_positive statement_timeout_ms
          then statement_timeout_ms
          else params.statement_timeout_ms)
        (connectdb (build_conninfo params) w)

  -- PqConnection::IsHealthy
  unfoldable pub is_healthy : ℕ → World S → Bool
  is_healthy conn w = pq.connection_ok conn w.server
