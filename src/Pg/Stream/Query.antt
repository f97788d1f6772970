-- ===== src/Pg/Stream/Query.antt =====
-- The public members of StreamingQuery (src/pg/streaming_query.cpp): Open, Fetch, Close and Abort.
use mtdd_server.Base.{ℕ, Bool, true, false, ◌&&◌, Option, none, some, [], if◌then◌else◌}
use mtdd_server.Base.Int.{ℤ}
use mtdd_server.Codec.QueryMeta.{is_tuple_streaming_sql}
use mtdd_server.Pg.Libpq.{Libpq, PgResult}
use mtdd_server.Pg.Conn.{ConnectParams, clear}
use mtdd_server.Pg.Stream.Request.{QueryRequest, build_params, result_format_flag}
use mtdd_server.Pg.Stream.State.{
  done, M, ◌>>=◌, ◌>>◌, pure, with_lock, is_ok_status, set_error, run_params, accept,
}
use mtdd_server.Pg.Stream.Lease.{acquire_connection, release_connection}
use mtdd_server.Pg.Stream.Cursor.{open_cursor, fetch_cursor, close_cursor, end_transaction}

module _ {S : Type 0} (pq : Libpq S) where
  unfoldable pub execute_immediate : QueryRequest → ℕ → M S (Option PgResult)
  unfolding with_lock
  execute_immediate request conn = with_lock conn (do
    result ← run_params pq conn request.text (build_params request) (result_format_flag request)
    accept pq conn is_ok_status result)

  -- Behind ExecuteImmediate.
  abbrev pub keep_immediate : Option PgResult → M S Bool
  keep_immediate none s =
      (do release_connection pq true; pure false) (record s { immediate_result = none })
  keep_immediate (some result) s =
      done (true, record s { immediate_result = some result; immediate_done = false })

  -- Behind AcquireConnection.
  unfoldable pub start : QueryRequest → M S Bool
  start request s = elim s.connection_ [
    | none ↦ done (false, s)
    | some conn ↦
        if s.use_cursor
        then open_cursor pq request conn s
        else (do result ← execute_immediate request conn; keep_immediate result) s
  ]

module _ {S : Type 0} (pq : Libpq S) (session_defaults : ConnectParams) where
  unfoldable pub open_query : QueryRequest → M S Bool
  open_query request s =
      (do
        acquired ← acquire_connection pq session_defaults request
        if acquired then start pq request else pure false)
        (record s { use_cursor = is_tuple_streaming_sql request.text })

module _ {S : Type 0} (pq : Libpq S) (fetch_size : ℤ) where
  unfoldable pub fetch : M S (Option PgResult)
  fetch s = elim s.connection_ [
    | none ↦ done (none, s)
    | some conn ↦
        if s.use_cursor
        then fetch_cursor pq fetch_size s
        else if s.immediate_done
        then done (none, s)
        else done (s.immediate_result, record s { immediate_done = true; immediate_result = none })
  ]

module _ {S : Type 0} (pq : Libpq S) where
  -- `if (immediate_result_ != nullptr)`
  abbrev pub drop_immediate : M S (Unit {0})
  drop_immediate s =
      done (tt, record s { immediate_result = none; world = clear pq s.immediate_result s.world })

  unfoldable pub close : M S (Unit {0})
  close s =
      (do
        drop_immediate
        if s.use_cursor then (do close_cursor pq; end_transaction pq true) else pure tt
        release_connection pq false)
        s

  unfoldable pub abort : M S (Unit {0})
  abort s =
      (do
        drop_immediate
        set_error []
        if s.use_cursor && s.cursor_open then close_cursor pq else pure tt
        λ t. (if t.started_local_txn then end_transaction pq false else pure tt) t
        set_error s.error
        release_connection pq true)
        s
