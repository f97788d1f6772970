-- ===== src/Pg/Stream/Lease.antt =====
-- AcquireConnection and ReleaseConnection of src/pg/streaming_query.cpp: where a query's connection
-- comes from, and where it goes.
use mtdd_server.Base.{ℕ, codes, Bool, true, false, not, ◌||◌, none, some, if◌then◌else◌, is_empty}
use mtdd_server.Base.Int.{pos}
use mtdd_server.Base.Results.{Result, ok, throw}
use mtdd_server.Pg.Libpq.{Libpq}
use mtdd_server.Pg.Conn.{World, ConnectParams, connect, is_healthy}
use mtdd_server.Pg.Pool
use mtdd_server.Pg.Pool.{ConnectionManager, Acquired, waits, takes, creates}
use mtdd_server.Pg.Sessions
use mtdd_server.Pg.Sessions.{SessionStore, Obtained, connection, nothing}
use mtdd_server.Pg.Stream.Request.{QueryRequest}
use mtdd_server.Pg.Stream.State.{State, waiting, done, stuck, M}

module _ {S : Type 0} where
  -- The session branch of AcquireConnection.
  abbrev pub from_session : Obtained × SessionStore × World S → M S Bool
  from_session (connection conn, store, w) s =
      done (true, record s { connection_ = some conn; pooled = false; sessions = store; world = w })
  from_session (nothing none, store, w) s =
      done (false, record s { connection_ = none; sessions = store; world = w })
  from_session (nothing (some e), store, w) s =
      done (false, record s { connection_ = none; sessions = store; world = w; error = e })

module _ {S : Type 0} (pq : Libpq S) where
  -- What ConnectionManager::Acquire returns once it has connected.
  abbrev pub from_new : Result ℕ × World S → ConnectionManager → M S Bool
  from_new (ok conn, w) m s =
      done (true, record s { connection_ = some conn; pooled = true; pool = m; world = w })
  from_new (throw e, w) m s = done (
    false,
    record s {
      connection_ = none;
      pool = Pool.acquire_failed m;
      world = w;
      error = codes "failed to acquire database connection";
    },
  )

  -- The pool branch of AcquireConnection.
  abbrev pub from_pool : Acquired → M S Bool
  from_pool waits s = stuck waiting
  from_pool (takes conn m) s =
      done (true, record s { connection_ = some conn; pooled = true; pool = m })
  from_pool (creates m) s = from_new (connect pq m.params (pos 0) s.world) m s

module _ {S : Type 0} (pq : Libpq S) (session_defaults : ConnectParams) where
  unfoldable pub acquire_connection : QueryRequest → M S Bool
  acquire_connection request s =
      let use_session = not (is_empty request.session_id) in
      let s' = record s { use_session = use_session } in
      if use_session
      then from_session
          (Sessions.get_or_create (is_healthy pq) (connect pq session_defaults (pos 0))
            request.session_id s.sessions s.world)
          s'
      else from_pool pq (Pool.acquire s.pool) s'

module _ {S : Type 0} (pq : Libpq S) where
  -- Of a connection that is there.
  abbrev pub released : Bool → ℕ → Bool → State S → State S
  released broken conn true s =
      let healthy = is_healthy pq conn s.world in
      record s {
        pool = Pool.release (some conn) (broken || not healthy) healthy s.pool;
        connection_ = none;
        pooled = false;
      }
  released broken conn false s = record s { connection_ = none; pooled = false }

  unfoldable pub release_connection : Bool → M S (Unit {0})
  release_connection broken s = elim s.connection_ [
    | none ↦ done (tt, s)
    | some conn ↦ done (tt, released broken conn s.pooled s)
  ]
