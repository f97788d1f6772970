-- ===== src/Pg/Executor/Release.antt =====
-- A query that is run and finished gives everything back.
use mtdd_server.Pg.Executor.{result_format_flag}
use mtdd_server.Pg.Executor.{finished}
use mtdd_server.Pg.Executor.{build_params}
use mtdd_server.Base.{
  ℕ, zero, ap, ◌∙◌, ◌+◌, sym, subst, suc, ◌-◌, true, false, not, ◌&&◌, ◌||◌, Option, none, some, [],
  if◌then◌else◌, is_empty, ◌≡◌, refl, arith, if_both,
}
use mtdd_server.Base.Int.{ℤ, pos, negsuc, increment, decrement}
use mtdd_server.Base.Results.{Result, ok, throw}
use mtdd_server.Pg.Libpq.{Libpq, PgResult}
use mtdd_server.Pg.Conn.{
  World, ConnectParams, exec_params, clear, connect, is_healthy, is_tuples_ok, is_command_ok,
}
use mtdd_server.Pg.Stream.State.{result_status}
use mtdd_server.Pg.Conn.Balance.{IsFresh, Balanced, connect-Balanced}
use mtdd_server.Pg.Pool
use mtdd_server.Pg.Sessions
use mtdd_server.Pg.Pool.{ConnectionManager, Acquired, waits, takes, creates}
use mtdd_server.Pg.Pool.Accounting.{takes_idle, creates_room}
use mtdd_server.Pg.Stream.Request.{QueryRequest, build_params, result_format_flag}
use mtdd_server.Pg.Executor.{
  QueryExecution, Executor, finish_query, finished, execute_on, with_new, with_session, with_pool,
  execute,
}

decrement-increment : (n : ℤ) → decrement (increment n) ≡ n
decrement-increment (pos n) = refl
decrement-increment (negsuc zero) = refl
decrement-increment (negsuc (suc n)) = refl

module _ {S : Type 0} (pq : Libpq S) where
  -- Finished, the execution holds no result and no pooled connection, and the pool's users and the
  -- results held are as many as given.
  abbrev pub IsSettled : ℤ → ℕ → QueryExecution × Executor S → Type 0
  IsSettled in_use live_results (e, s) =
      (e.result ≡ none)
      × (e.pooled ≡ false)
      × (s.pool.in_use ≡ in_use)
      × (s.world.live_results ≡ live_results)

  abbrev pub Settles : ℤ → ℕ → Option (QueryExecution × Executor S) → Type 0
  Settles in_use live_results none = Unit {0}
  Settles in_use live_results (some (e, s)) = IsSettled in_use live_results (finish_query pq e s)

  -- How many results a call of libpq returned.
  abbrev returned : Option PgResult → ℕ
  returned none = 0
  returned (some result) = 1

  clear-live_results :
      (result : Option PgResult) (w : World S)
      → (clear pq result w).live_results ≡ w.live_results - returned result
  unfolding clear
  clear-live_results none w = omega arith
  clear-live_results (some result) w = refl

  exec_params-live_results :
      (conn : ℕ) (request : QueryRequest) (w : World S)
      → let held =
          exec_params pq conn request.text (build_params request) (result_format_flag request) w in
        held.1.live_results ≡ w.live_results + returned held.0
  unfolding exec_params
  exec_params-live_results conn request w = ground arith

  -- FinishQuery of an execution that holds a pooled connection, and of one that is finished.
  finish_query-IsSettled :
      (e : QueryExecution) (conn : ℕ) (s : Executor S)
      → e.held ≡ some conn
      → e.pooled ≡ true
      → IsSettled
          (decrement s.pool.in_use)
          (s.world.live_results - returned e.result)
          (finish_query pq e s)
  unfolding finish_query Pool.release
  finish_query-IsSettled e conn s h p = ground (arith, clear-live_results e.result s.world)

  finish_query-same :
      (in_use : ℤ) (live : ℕ) (x : QueryExecution × Executor S)
      → IsSettled in_use live x
      → IsSettled in_use live (finish_query pq x.0 x.1)
  unfolding finish_query clear
  finish_query-same in_use live (e, s) h = ground arith

  finished-Settles :
      (e : QueryExecution) (conn : ℕ) (s : Executor S)
      → e.held ≡ some conn
      → e.pooled ≡ true
      → Settles
          (decrement s.pool.in_use)
          (s.world.live_results - returned e.result)
          (some (finished pq false e s))
  finished-Settles e conn s h p =
      let settled = finish_query-IsSettled e conn s h p in
      if_both
        (λ (x : QueryExecution × Executor S).
          IsSettled (decrement s.pool.in_use) (s.world.live_results - returned e.result)
            (finish_query pq x.0 x.1))
        (not (is_tuples_ok (result_status e.result) || is_command_ok (result_status e.result))
          && true)
        (finish_query-same (decrement s.pool.in_use) (s.world.live_results - returned e.result)
          (finish_query pq e s) settled)
        settled

  execute_on-IsSettled :
      (request : QueryRequest) (conn : ℕ) (s : Executor S)
      → Settles
          (decrement s.pool.in_use)
          s.world.live_results
          (some (execute_on pq request false conn s))
  unfolding execute_on
  execute_on-IsSettled request conn s =
      let held =
        exec_params pq conn request.text (build_params request) (result_format_flag request)
          s.world in
      let e : QueryExecution = record {
        result = held.0;
        held = some conn;
        pooled = true;
        connection_broken = not (is_healthy pq conn held.1);
      } in
      let t = record s { world = held.1 } in
      subst (λ n. Settles (decrement s.pool.in_use) n (some (finished pq false e t)))
        (omega (arith, exec_params-live_results conn request s.world))
        (finished-Settles e conn t refl refl)

  with_new-Settles :
      (request : QueryRequest) (m : ConnectionManager) (s : Executor S) (r : Result ℕ × World S)
      → m.in_use ≡ increment s.pool.in_use
      → Balanced pq s.world r
      → Settles s.pool.in_use s.world.live_results (some (with_new pq request r m s))
  unfolding Pool.acquire_failed finish_query clear
  with_new-Settles request m s (ok conn, w) i b =
      let settled = execute_on-IsSettled request conn (record s { pool = m; world = w }) in
      let back : decrement m.in_use ≡ s.pool.in_use =
        ap decrement i ∙ decrement-increment s.pool.in_use in
      subst
        (λ n.
          Settles n s.world.live_results
            (some (execute_on pq request false conn (record s { pool = m; world = w }))))
        back
        (subst
          (λ n.
            Settles (decrement m.in_use) n
              (some (execute_on pq request false conn (record s { pool = m; world = w }))))
          b.2 settled)
  with_new-Settles request m s (throw e, w) i b =
      (refl, refl, ap decrement i ∙ decrement-increment s.pool.in_use, b.1)

  with_pool-Settles :
      (request : QueryRequest) (s : Executor S) (a : Acquired)
      → IsFresh pq s.pool.params s.world
      → Pool.acquire s.pool ≡ a
      → Settles s.pool.in_use s.world.live_results (with_pool pq request a s)
  with_pool-Settles request s waits f e = tt
  with_pool-Settles request s (takes conn m) f e =
      let (rest, p, q) = takes_idle s.pool m conn s.pool.idle refl e in
      subst
        (λ n.
          Settles n s.world.live_results
            (some (execute_on pq request false conn (record s { pool = m }))))
        (ap (λ x. decrement x.in_use) q ∙ decrement-increment s.pool.in_use)
        (execute_on-IsSettled request conn (record s { pool = m }))
  with_pool-Settles request s (creates m) f e =
      let (p, room, q) = creates_room s.pool m e in
      with_new-Settles request m s (connect pq m.params (pos 0) s.world) (ap (λ x. x.in_use) q) (
        connect-Balanced pq m.params (pos 0) s.world
          (subst (λ x. IsFresh pq x s.world) (sym (ap (λ x. x.params) q)) f))

  -- If libpq never returns the address of an open connection for a new one, then whenever Execute
  -- of a query without a session returns, with whatever outcome, and FinishQuery is called on the
  -- execution, no result and no pooled connection is held by it, and in_use_ and the number of
  -- results held are as they were before.
  pub execute-IsSettled :
      (session_defaults : ConnectParams) (request : QueryRequest) (s : Executor S)
      → request.session_id ≡ []
      → IsFresh pq s.pool.params s.world
      → Settles s.pool.in_use s.world.live_results (execute pq session_defaults request s)
  unfolding execute
  execute-IsSettled session_defaults request s e f =
      subst
        (λ b. Settles s.pool.in_use s.world.live_results (
          if not b
          then some (
              with_session pq request
                (Sessions.get_or_create (is_healthy pq) (connect pq session_defaults (pos 0))
                  request.session_id s.sessions s.world)
                s)
          else with_pool pq request (Pool.acquire s.pool) s))
        (sym (ap is_empty e)) (with_pool-Settles request s (Pool.acquire s.pool) f refl)
