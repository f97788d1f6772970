-- ===== src/Pg/Stream/Cursor.antt =====
-- The members of StreamingQuery (src/pg/streaming_query.cpp) that work on the transaction and the
-- cursor of a query.
use mtdd_server.Base.{
  ℕ, suc, codes, Bool, true, false, not, Option, none, some, ◌++◌, if◌then◌else◌,
}
use mtdd_server.Base.Int.{ℤ}
use mtdd_server.Base.Decimal.{to_string_ℤ}
use mtdd_server.Pg.Libpq.{Libpq, PgResult, TransactionStatus}
use mtdd_server.Pg.Conn.{clear, is_command_ok, is_tuples_ok}
use mtdd_server.Pg.Stream.Request.{QueryRequest, build_params, result_format_flag}
use mtdd_server.Pg.Stream.State.{
  done, M, ◌>>=◌, ◌>>◌, pure, with_lock, result_status, result_error, cursor_name_of,
  clamp_fetch_size, set_error, keep_error, run, run_params, clear_result, accept,
}

module _ {S : Type 0} (pq : Libpq S) where
  -- The result of BEGIN.
  abbrev pub begun : Option PgResult → M S Bool
  begun result s =
      let ok_begin = is_command_ok (result_status result) in
      let s' =
        if ok_begin
        then record s { started_local_txn = true }
        else record s { error = result_error result } in
      done (ok_begin, record s' { world = clear pq result s'.world })

  abbrev pub begin_in : ℕ → TransactionStatus → M S Bool
  begin_in conn TransactionStatus.idle = do result ← run pq conn (codes "BEGIN"); begun result
  begin_in conn TransactionStatus.in_error = do
    set_error (codes "connection is in failed transaction state")
    pure false
  begin_in conn _ = pure true

  unfoldable pub begin_if_needed : ℕ → M S Bool
  unfolding with_lock
  begin_if_needed conn =
      with_lock conn (λ s. begin_in conn (pq.transaction_status conn s.world.server) s)

  abbrev pub end_locked : Bool → ℕ → M S (Unit {0})
  end_locked commit conn = do
    result ← run pq conn (if commit then codes "COMMIT" else codes "ROLLBACK")
    keep_error (result_status result) (result_error result)
    clear_result pq result
    λ s. done (tt, record s { started_local_txn = false })

  unfoldable pub end_transaction : Bool → M S (Unit {0})
  unfolding with_lock
  end_transaction commit s = elim s.connection_ [
    | none ↦ done (tt, s)
    | some conn ↦
        if not s.started_local_txn then done (tt, s) else with_lock conn (end_locked commit conn) s
  ]

  -- The result of DECLARE, under the lock.
  unfoldable pub declared : Option PgResult → M S Bool
  declared result =
      if not (is_command_ok (result_status result))
      then (do
        set_error (result_error result)
        clear_result pq result
        end_transaction false
        pure false)
      else (do clear_result pq result; λ s. done (true, record s { cursor_open = true }))

  -- Behind BeginIfNeeded.
  unfoldable pub declare_cursor : QueryRequest → ℕ → M S Bool
  declare_cursor request conn s =
      let name = cursor_name_of s.cursor_counter in
      let s' = record s { cursor_name = name; cursor_counter = suc s.cursor_counter } in
      with_lock conn
        (do
          result ←
              run_params pq conn
                (codes "DECLARE " ++ name ++ codes " NO SCROLL CURSOR FOR " ++ request.text)
                (build_params request) (result_format_flag request)
          declared result)
        s'

  unfoldable pub open_cursor : QueryRequest → ℕ → M S Bool
  open_cursor request conn = do
    begin ← begin_if_needed conn
    if begin then declare_cursor request conn else pure false

  abbrev pub close_locked : ℕ → M S (Unit {0})
  close_locked conn s =
      (do
        result ← run pq conn (codes "CLOSE " ++ s.cursor_name)
        keep_error (result_status result) (result_error result)
        clear_result pq result
        λ t. done (tt, record t { cursor_open = false }))
        s

  unfoldable pub close_cursor : M S (Unit {0})
  unfolding with_lock
  close_cursor s = elim s.connection_ [
    | none ↦ done (tt, s)
    | some conn ↦ if not s.cursor_open then done (tt, s) else with_lock conn (close_locked conn) s
  ]

module _ {S : Type 0} (pq : Libpq S) (fetch_size : ℤ) where
  unfoldable pub fetch_cursor : M S (Option PgResult)
  unfolding with_lock
  fetch_cursor s = elim s.connection_ [
    | none ↦ done (none, s)
    | some conn ↦
        if not s.cursor_open
        then done (none, s)
        else with_lock conn
            (do
              result ← run pq conn (
                  codes "FETCH FORWARD "
                  ++ to_string_ℤ (clamp_fetch_size fetch_size)
                  ++ codes " FROM "
                  ++ s.cursor_name)
              accept pq conn is_tuples_ok result)
            s
  ]
