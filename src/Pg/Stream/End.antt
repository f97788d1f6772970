-- ===== src/Pg/Stream/End.antt =====
-- The ends of a streamed query, Close and Abort: what they send and what they release.
use mathlib.Core.List.{append_assoc}
use mtdd_server.Base.{
  ℕ, Bytes, Bool, true, false, Option, none, some, List, [], ◌++◌, if◌then◌else◌, contains,
  ℕ_discrete, ◌≡◌, refl, sym, subst, arith,
}
use mtdd_server.Base.Int.{decrement}
use mtdd_server.Pg.Libpq.{Libpq}
use mtdd_server.Pg.Conn.{clear}
use mtdd_server.Pg.Pool
use mtdd_server.Pg.Pool
use mtdd_server.Pg.Stream.State.{pure, ◌>>◌, State, Outcome, M, continue, set_error}
use mtdd_server.Pg.Stream.Cursor.{end_transaction, close_cursor}
use mtdd_server.Pg.Stream.Lease.{release_connection}
use mtdd_server.Pg.Stream.Query.{close, abort}
use mtdd_server.Pg.Stream.Steps.{
  Ends, Ends-continue, Ends-weaken, Sends, Closed, Finished, close_cursor-Ends,
  end_transaction-Ends, close_statement, end_statement, clear-sent,
}

module _ {S : Type 0} where
  -- The cleanup statements that a state owes.
  abbrev pub cleanup : Bool → State S → List Bytes
  cleanup commit s =
      close_statement s.cursor_open s.cursor_name ++ end_statement commit s.started_local_txn

  -- Nothing is kept: the connection, the cursor, the transaction, the result and the mutexes.
  abbrev pub IsReleased : Bool → State S → State S → Type 0
  IsReleased commit s t =
      (t.connection_ ≡ none)
      × (t.pooled ≡ false)
      × (t.immediate_result ≡ none)
      × (t.cursor_open ≡ false)
      × (t.started_local_txn ≡ false)
      × (t.locked ≡ s.locked)
      × (t.sessions ≡ s.sessions)
      × (t.pool.in_use ≡ (if s.pooled then decrement s.pool.in_use else s.pool.in_use))
      × (t.world.sent ≡ s.world.sent ++ cleanup commit s)

  -- Behind the cursor's end.
  abbrev Ended : ℕ → Bool → State S → State S → Type 0
  Ended conn commit s t =
      Sends conn (cleanup commit s) s t × (t.cursor_open ≡ false) × (t.started_local_txn ≡ false)

module _ {S : Type 0} (pq : Libpq S) where
  Ended-pair :
      (conn : ℕ) (commit : Bool) (s t u : State S)
      → Closed conn s.cursor_open s t
      → Finished conn commit s.started_local_txn t u
      → Ended conn commit s u
  Ended-pair conn commit s t u h k = ground (
    arith,
    append_assoc s.world.sent (close_statement s.cursor_open s.cursor_name)
        (end_statement commit s.started_local_txn),
  )

  release-IsReleased :
      (conn : ℕ) (commit broken : Bool) (s t : State S)
      → (s.immediate_result ≡ none)
      → Ended conn commit s t
      → Ends (IsReleased commit s) (release_connection pq broken t)
  unfolding release_connection Pool.release
  release-IsReleased conn commit broken s t i h = ground arith

  -- `EndTransaction` behind `CloseCursor`.
  end_transaction-Ended :
      (conn : ℕ) (commit : Bool) (s t : State S)
      → contains ℕ_discrete conn s.locked ≡ false
      → Closed conn s.cursor_open s t
      → Ends (Ended conn commit s) (end_transaction pq commit t)
  end_transaction-Ended conn commit s t free h =
      let at_conn = record t { connection_ = some conn } in
      Ends-weaken (Ended conn commit s) (Finished conn commit t.started_local_txn t)
        (end_transaction pq commit t)
        (subst
          (λ c.
            Ends (Finished conn commit t.started_local_txn t)
              (end_transaction pq commit (record t { connection_ = c })))
          (sym h.0.0) (end_transaction-Ends pq conn commit t.started_local_txn t (ground arith)))
        (λ u k. Ended-pair conn commit s t u h (ground arith))

  -- The state behind the first step of `Close` and `Abort`.
  abbrev without_result : State S → State S
  without_result s = record s {
    immediate_result = none;
    world = clear pq s.immediate_result s.world;
  }

  base_lem :
      (commit : Bool) (s : State S) (o : Outcome (Unit {0} × State S))
      → Ends (IsReleased commit (without_result s)) o
      → Ends (IsReleased commit s) o
  base_lem commit s o h =
      Ends-weaken (IsReleased commit s) (IsReleased commit (without_result s)) o h
        (λ t k. ground (arith, clear-sent pq s.immediate_result s.world))

  close-cursor_query :
      (s : State S) (conn : ℕ)
      → contains ℕ_discrete conn s.locked ≡ false
      → Ends
          (IsReleased true s)
          (close pq (record s { connection_ = some conn; use_cursor = true }))
  unfolding close
  close-cursor_query s conn free =
      let u = without_result (record s { connection_ = some conn; use_cursor = true }) in
      let closing = close_cursor pq u in
      base_lem true s (close pq (record s { connection_ = some conn; use_cursor = true })) (
        Ends-continue (IsReleased true (without_result s)) (Ended conn true u)
          (continue closing (λ _. end_transaction pq true)) (λ _. release_connection pq false)
          (Ends-continue (Ended conn true u) (Closed conn u.cursor_open u) closing
            (λ _. end_transaction pq true) (close_cursor-Ends pq conn s.cursor_open u free)
            (λ t h. end_transaction-Ended conn true u t free h))
          (λ t h. release-IsReleased conn true false u t refl h))

  -- The guards of `Abort` are those of the calls themselves.
  guarded_close :
      (s : State S) → (if s.cursor_open then close_cursor pq else pure tt) s ≡ close_cursor pq s
  unfolding close_cursor
  guarded_close s = ground arith

  guarded_end :
      (commit : Bool) (s : State S)
      → (if s.started_local_txn then end_transaction pq commit else pure tt) s
        ≡ end_transaction pq commit s
  unfolding end_transaction
  guarded_end commit s = ground arith

  -- `Abort` behind its guarded `CloseCursor`.
  abbrev end_guarded : M S (Unit {0})
  end_guarded t = (if t.started_local_txn then end_transaction pq false else pure tt) t

  abbrev give_up : Bytes → M S (Unit {0})
  give_up error = set_error error >> release_connection pq true

  abort-cursor_query :
      (s : State S) (conn : ℕ)
      → contains ℕ_discrete conn s.locked ≡ false
      → Ends
          (IsReleased false s)
          (abort pq (record s { connection_ = some conn; use_cursor = true }))
  unfolding abort
  abort-cursor_query s conn free =
      let u =
        without_result (record s { connection_ = some conn; use_cursor = true; error = [] }) in
      base_lem false s (abort pq (record s { connection_ = some conn; use_cursor = true })) (
        Ends-continue (IsReleased false (without_result s)) (Closed conn u.cursor_open u)
          ((if s.cursor_open then close_cursor pq else pure tt) u)
          (λ _ t. continue (end_guarded t) (λ _. give_up s.error))
          (subst (Ends (Closed conn u.cursor_open u)) (sym (guarded_close u))
            (close_cursor-Ends pq conn s.cursor_open u free))
          (λ t h.
            Ends-continue (IsReleased false (without_result s)) (Ended conn false u) (end_guarded t)
              (λ _. give_up s.error)
              (subst (Ends (Ended conn false u)) (sym (guarded_end false t))
                (end_transaction-Ended conn false u t free h))
              (λ v k. release-IsReleased conn false true u (record v { error = s.error }) refl k)))

  the_pair :
      (conn : ℕ) (s : State S)
      → s.connection_ ≡ some conn
      → s.use_cursor ≡ true
      → ◌≡◌ {A = Option ℕ × Bool} (some conn, true) (s.connection_, s.use_cursor)
  the_pair conn s c u = ground arith

  -- For a query that streams through a cursor and holds a connection whose mutex its thread does
  -- not hold already, Close and Abort both come to an end without a deadlock, whatever the server
  -- answers. They close the cursor if it is open, then commit (Close) or roll back (Abort) the
  -- transaction if the query began it, and send nothing else. Afterwards the connection, the
  -- pending result, the cursor and the transaction are gone, a pooled connection no longer counts
  -- in in_use_, and the mutexes held and the sessions are those before.
  pub close-abort_lem :
      (s : State S) (conn : ℕ)
      → s.connection_ ≡ some conn
      → s.use_cursor ≡ true
      → contains ℕ_discrete conn s.locked ≡ false
      → Ends (IsReleased true s) (close pq s) × Ends (IsReleased false s) (abort pq s)
  close-abort_lem s conn c u free =
      subst
        (λ x.
          Ends (IsReleased true s) (close pq (record s { connection_ = x.0; use_cursor = x.1 }))
          × Ends (IsReleased false s) (abort pq (record s { connection_ = x.0; use_cursor = x.1 })))
        (the_pair conn s c u) (close-cursor_query s conn free, abort-cursor_query s conn free)
