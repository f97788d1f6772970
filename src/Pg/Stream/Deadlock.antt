-- ===== src/Pg/Stream/Deadlock.antt =====
-- What OpenCursor does where the server refuses BEGIN or DECLARE.
use mtdd_server.Codec.QueryMeta.{is_tuple_streaming_sql}
use mtdd_server.Pg.Pool
use mtdd_server.Pg.Pool.{ConnectionManager, takes}
use mtdd_server.Pg.Stream.Query.{start}
use mtdd_server.Pg.Stream.Lease.{acquire_connection}
use mtdd_server.Pg.Stream.State.{unlock}
use mtdd_server.Pg.Stream.Query.{open_query}
use mtdd_server.Base.{
  ℕ, suc, codes, Bool, true, false, Option, some, List, [], ◌∷◌, ◌++◌, contains, ℕ_discrete, ◌≡◌,
  refl, ap, arith,
}
use mtdd_server.Base.Int.{ℤ, increment}
use mtdd_server.Pg.Libpq.{Libpq, PgResult, TransactionStatus}
use mtdd_server.Pg.Conn.{ConnectParams, exec, exec_params, clear, is_command_ok}
use mtdd_server.Pg.Stream.State.{
  State, Outcome, done, stuck, deadlock, with_lock, result_status, result_error, cursor_name_of,
}
use mtdd_server.Pg.Stream.Cursor.{
  open_cursor, begin_if_needed, declare_cursor, declared, end_transaction,
}
use mtdd_server.Pg.Stream.Steps.{erased}
use mtdd_server.Pg.Stream.Request.{QueryRequest, build_params, result_format_flag}

-- The run returns false, and the query holds the pooled connection, with the pool's counter as given.
abbrev pub Keeps : {S : Type 0} → ℕ → ℤ → Outcome (Bool × State S) → Type 0
Keeps conn in_use (done (b, t)) =
    (b ≡ false) × (t.connection_ ≡ some conn) × (t.pooled ≡ true) × (t.pool.in_use ≡ in_use)
Keeps conn in_use (stuck w) = ⊥

module _ {S : Type 0} (pq : Libpq S) where
  begin_in-idle :
      (conn : ℕ) (s : State S)
      → contains ℕ_discrete conn s.locked ≡ false
      → pq.transaction_status conn s.world.server ≡ TransactionStatus.idle
      → is_command_ok (result_status (exec pq conn (codes "BEGIN") s.world).0) ≡ true
      → begin_if_needed pq conn s
        ≡ done (
          true,
          record s {
            started_local_txn = true;
            world =
                clear pq
                  (exec pq conn (codes "BEGIN") s.world).0
                  (exec pq conn (codes "BEGIN") s.world).1;
          },
        )
  unfolding begin_if_needed with_lock
  begin_in-idle conn s free idle begun =
      let begin_result = exec pq conn (codes "BEGIN") s.world in
      rw (free, idle, begun)
        (ap
          (λ l. done (
            true,
            record s {
              started_local_txn = true;
              world = clear pq begin_result.0 begin_result.1;
              locked = l;
            },
          ))
          (erased pq conn s.locked (conn ∷ s.locked) free refl))

  begin_in-refused :
      (conn : ℕ) (s : State S)
      → contains ℕ_discrete conn s.locked ≡ false
      → pq.transaction_status conn s.world.server ≡ TransactionStatus.idle
      → is_command_ok (result_status (exec pq conn (codes "BEGIN") s.world).0) ≡ false
      → begin_if_needed pq conn s
        ≡ done (
          false,
          record s {
            error = result_error (exec pq conn (codes "BEGIN") s.world).0;
            world =
                clear pq
                  (exec pq conn (codes "BEGIN") s.world).0
                  (exec pq conn (codes "BEGIN") s.world).1;
          },
        )
  unfolding begin_if_needed with_lock
  begin_in-refused conn s free idle begun =
      let begin_result = exec pq conn (codes "BEGIN") s.world in
      rw (free, idle, begun)
        (ap
          (λ l. done (
            false,
            record s {
              error = result_error begin_result.0;
              world = clear pq begin_result.0 begin_result.1;
              locked = l;
            },
          ))
          (erased pq conn s.locked (conn ∷ s.locked) free refl))

  -- The answer to DECLARE, behind a BEGIN.
  abbrev pub declare_answer : QueryRequest → ℕ → State S → Option PgResult
  declare_answer request conn s =
      let begin_result = exec pq conn (codes "BEGIN") s.world in
      (exec_params pq conn
        (codes "DECLARE "
          ++ cursor_name_of s.cursor_counter
          ++ codes " NO SCROLL CURSOR FOR "
          ++ request.text)
        (build_params request) (result_format_flag request)
        (clear pq begin_result.0 begin_result.1)).0

  end_transaction-deadlock :
      (commit : Bool) (conn : ℕ) (s : State S)
      → s.connection_ ≡ some conn
      → s.started_local_txn ≡ true
      → contains ℕ_discrete conn s.locked ≡ true
      → end_transaction pq commit s ≡ stuck deadlock
  unfolding end_transaction with_lock
  end_transaction-deadlock commit conn s c started held = ground arith

  declared-deadlock :
      (result : Option PgResult) (conn : ℕ) (s : State S)
      → s.connection_ ≡ some conn
      → s.started_local_txn ≡ true
      → contains ℕ_discrete conn s.locked ≡ true
      → is_command_ok (result_status result) ≡ false
      → declared pq result s ≡ stuck deadlock
  unfolding declared
  declared-deadlock result conn s c started held refused =
      rw
        (
          refused,
          end_transaction-deadlock false conn
              (record s { error = result_error result; world = clear pq result s.world }) c started
              held,
        )
        refl

  -- If the query's connection is idle and its mutex free, the server carries out BEGIN, and it
  -- refuses the DECLARE, OpenCursor deadlocks, since EndTransaction locks the mutex that
  -- OpenCursor still holds.
  pub open_cursor-deadlock :
      (request : QueryRequest) (conn : ℕ) (s : State S)
      → s.connection_ ≡ some conn
      → contains ℕ_discrete conn s.locked ≡ false
      → pq.transaction_status conn s.world.server ≡ TransactionStatus.idle
      → is_command_ok (result_status (exec pq conn (codes "BEGIN") s.world).0) ≡ true
      → is_command_ok (result_status (declare_answer request conn s)) ≡ false
      → open_cursor pq request conn s ≡ stuck deadlock
  unfolding open_cursor declare_cursor with_lock
  open_cursor-deadlock request conn s c free idle begun refused =
      let begin_result = exec pq conn (codes "BEGIN") s.world in
      let answer =
        exec_params pq conn
          (codes "DECLARE "
            ++ cursor_name_of s.cursor_counter
            ++ codes " NO SCROLL CURSOR FOR "
            ++ request.text)
          (build_params request) (result_format_flag request)
          (clear pq begin_result.0 begin_result.1) in
      rw (begin_in-idle conn s free idle begun, free)
        (ap {B = Outcome (Bool × State S)} (unlock conn) (
          declared-deadlock answer.0 conn
            (record s {
              started_local_txn = true;
              cursor_name = cursor_name_of s.cursor_counter;
              cursor_counter = suc s.cursor_counter;
              world = answer.1;
              locked = conn ∷ s.locked;
            })
            c refl (ground arith) refused))

module _ {S : Type 0} (pq : Libpq S) (session_defaults : ConnectParams) where
  acquire-idle :
      (conn : ℕ) (rest : List ℕ) (pool : ConnectionManager)
      → pool.idle ≡ conn ∷ rest
      → Pool.acquire pool ≡ takes conn (record pool { idle = rest; in_use = increment pool.in_use })
  unfolding Pool.acquire
  acquire-idle conn rest pool h = ground arith

  -- If a cursor query without a session takes an idle connection of the pool, whose transaction is
  -- idle and whose mutex is free, and the server refuses BEGIN, Open returns false and keeps the
  -- connection, which stays counted in in_use_.
  pub open_query-Keeps :
      (request : QueryRequest) (conn : ℕ) (rest : List ℕ) (s : State S)
      → request.session_id ≡ []
      → is_tuple_streaming_sql request.text ≡ true
      → s.pool.idle ≡ conn ∷ rest
      → contains ℕ_discrete conn s.locked ≡ false
      → pq.transaction_status conn s.world.server ≡ TransactionStatus.idle
      → is_command_ok (result_status (exec pq conn (codes "BEGIN") s.world).0) ≡ false
      → Keeps conn (increment s.pool.in_use) (open_query pq session_defaults request s)
  unfolding open_query acquire_connection start open_cursor
  open_query-Keeps request conn rest s no_session streams acquired free idle refused =
      rw
        (
          no_session,
          streams,
          acquire-idle conn rest s.pool acquired,
          begin_in-refused pq conn
              (record s {
                connection_ = some conn;
                pooled = true;
                use_session = false;
                use_cursor = true;
                pool = record s.pool { idle = rest; in_use = increment s.pool.in_use };
              })
              free idle refused,
        )
        (refl, refl, refl, refl)
