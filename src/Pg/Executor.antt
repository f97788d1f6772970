-- ===== src/Pg/Executor.antt =====
-- src/pg/query_executor.cpp: QueryExecutor, which runs a query in one go. The state is what it works
-- on: the pool, the sessions, the connections, and the string that `error_out` points to. The
-- members run in one thread; where the pool makes `Execute` wait, nothing is returned.
pub mod Release
use mtdd_server.Base.{
  ℕ, Bytes, codes, Bool, true, false, not, ◌&&◌, ◌||◌, Option, none, some, List, [], if◌then◌else◌,
  is_empty,
}
use mtdd_server.Base.Int.{ℤ, pos}
use mtdd_server.Base.Results.{Result, ok, throw}
use mtdd_server.Pg.Libpq.{
  Libpq, PgResult, DiagField, sqlstate, severity, message_primary, message_detail,
  statement_position,
}
use mtdd_server.Pg.Conn.{
  World, ConnectParams, exec_params, clear, connect, is_healthy, is_command_ok, is_tuples_ok,
}
use mtdd_server.Pg.Pool
use mtdd_server.Pg.Pool.{ConnectionManager, Acquired, waits, takes, creates}
use mtdd_server.Pg.Sessions
use mtdd_server.Pg.Sessions.{SessionStore, Obtained, connection, nothing}
use mtdd_server.Pg.Stream.State.{result_status}
use mtdd_server.Pg.Stream.Request.{QueryRequest, build_params, result_format_flag}

-- PgErrorMeta
pub record PgErrorMeta : Type 0 where
  pub meta_sqlstate : Bytes
  pub meta_severity : Bytes
  pub meta_message : Bytes
  pub meta_detail : Bytes
  pub meta_position : Bytes

abbrev pub field_or_empty : PgResult → DiagField → Bytes
field_or_empty result field = elim (result.error_field field) [ none ↦ [] | some value ↦ value ]

abbrev or_unknown : Bytes → Bytes
or_unknown message = if is_empty message then codes "unknown PostgreSQL error" else message

unfoldable pub extract_pg_error : Option PgResult → PgErrorMeta
extract_pg_error none = record {
  meta_sqlstate = [];
  meta_severity = [];
  meta_message = codes "query returned null result";
  meta_detail = [];
  meta_position = [];
}
extract_pg_error (some result) = record {
  meta_sqlstate = field_or_empty result sqlstate;
  meta_severity = field_or_empty result severity;
  meta_message = or_unknown (field_or_empty result message_primary);
  meta_detail = field_or_empty result message_detail;
  meta_position = field_or_empty result statement_position;
}

pub record QueryExecution : Type 0 where
  pub result : Option PgResult
  pub held : Option ℕ
  pub pooled : Bool
  pub connection_broken : Bool

abbrev pub no_execution : QueryExecution
no_execution = record { result = none; held = none; pooled = false; connection_broken = false }

pub record Executor (S : Type 0) : Type 0 where
  pub pool : ConnectionManager
  pub sessions : SessionStore
  pub world : World S
  pub error : Bytes

module _ {S : Type 0} (pq : Libpq S) where
  abbrev give_back : Bool → Option ℕ → QueryExecution → Executor S → QueryExecution × Executor S
  give_back true (some conn) e s = (
    record e { held = none; pooled = false },
    record s {
      pool =
          Pool.release (some conn) (e.connection_broken || not (is_healthy pq conn s.world))
            (is_healthy pq conn s.world) s.pool;
    },
  )
  give_back _ _ e s = (e, s)

  unfoldable pub finish_query : QueryExecution → Executor S → QueryExecution × Executor S
  finish_query e s =
      give_back e.pooled e.held (record e { result = none })
        (record s { world = clear pq e.result s.world })

  -- Behind PQexecParams, on the connection `conn`.
  abbrev pub finished : Bool → QueryExecution → Executor S → QueryExecution × Executor S
  finished use_session e s =
      if not (is_tuples_ok (result_status e.result) || is_command_ok (result_status e.result))
        && not use_session
      then finish_query e s
      else (e, s)

  unfoldable pub execute_on : QueryRequest → Bool → ℕ → Executor S → QueryExecution × Executor S
  unfolding finish_query
  execute_on request use_session conn s =
      let (result, w) =
        exec_params pq conn request.text (build_params request) (result_format_flag request)
          s.world in
      finished use_session
        (record {
          result = result;
          held = some conn;
          pooled = not use_session;
          connection_broken = not (is_healthy pq conn w);
        })
        (record s { world = w })

  -- Where the connection comes from: a session, or the pool.
  abbrev with_session :
      QueryRequest → Obtained × SessionStore × World S → Executor S → QueryExecution × Executor S
  with_session request (connection conn, store, w) s =
      execute_on request true conn (record s { sessions = store; world = w })
  with_session request (nothing none, store, w) s =
      (no_execution, record s { sessions = store; world = w })
  with_session request (nothing (some e), store, w) s =
      (no_execution, record s { sessions = store; world = w; error = e })

  abbrev with_new :
      QueryRequest
      → Result ℕ × World S
      → ConnectionManager
      → Executor S
      → QueryExecution × Executor S
  with_new request (ok conn, w) m s =
      execute_on request false conn (record s { pool = m; world = w })
  with_new request (throw e, w) m s = (
    no_execution,
    record s {
      pool = Pool.acquire_failed m;
      world = w;
      error = codes "failed to acquire database connection";
    },
  )

  abbrev with_pool : QueryRequest → Acquired → Executor S → Option (QueryExecution × Executor S)
  with_pool request waits s = none
  with_pool request (takes conn m) s = some (execute_on request false conn (record s { pool = m }))
  with_pool request (creates m) s =
      some (with_new request (connect pq m.params (pos 0) s.world) m s)

  unfoldable pub execute :
      ConnectParams → QueryRequest → Executor S → Option (QueryExecution × Executor S)
  unfolding execute_on
  execute session_defaults request s =
      if not (is_empty request.session_id)
      then some (
          with_session request
            (Sessions.get_or_create (is_healthy pq) (connect pq session_defaults (pos 0))
              request.session_id s.sessions s.world)
            s)
      else with_pool request (Pool.acquire s.pool) s
