-- ===== src/Shard/Streaming/Keeping.antt =====
-- StreamingQuery (src/pg/streaming_query.cpp) keeps the contract that QueryStream relies on, for a
-- query whose cursor is finite.
use mathlib.Core.List.{append_assoc, append-nil}
use mtdd_server.Shard.Streaming.Closing.{ends-Over, clear-Streams}
use mtdd_server.Pg.Stream.Steps.{exec-sent, exec-server, erased}
use mtdd_server.Base.{erase, contains, ℕ_discrete, suc, List, false, ◌≡◌}
use mtdd_server.Shard.Streaming.{
  Moving, at, moving, Streams, server_after, Drains, Over, repeated-snoc, fetch_statements,
  fetch_statements-zero,
}
use mtdd_server.Base.{
  ℕ, Bytes, Bool, true, false, Option, none, some, ◌∷◌, if◌then◌else◌, Bool-cases, inl, inr, ◌≡◌,
  refl, ap, ◌∙◌, sym, subst, arith, ◌++◌, [],
}
use mtdd_server.Base.Int.{ℤ}
use mtdd_server.Pg.Libpq.{Libpq, PgResult}
use mtdd_server.Pg.Conn.{World, exec, hold, is_tuples_ok}
use mtdd_server.Pg.Conn
use mtdd_server.Pg.Stream.State.{State, done, with_lock, unlock, accept}
use mtdd_server.Pg.Stream.Query.{fetch}
use mtdd_server.Pg.Stream.Cursor.{fetch_cursor}
use mtdd_server.Shard.Contract.{Contract, Fetched}
use mtdd_server.Shard.Streaming.{
  streaming_query, IsOpen, fetch_statement, Answered, results_left, hold-Answered,
}

module _ {S : Type 0} (pq : Libpq S) (fetch_size : ℤ) (rows : S → ℕ) (conn : ℕ) where
  exec-Answered :
      (sql : Bytes) (w : World S) (s : S)
      → w.server ≡ s
      → Answered (pq.exec conn sql s).0 (rows s) (rows (pq.exec conn sql s).1)
      → Answered (exec pq conn sql w).0 (rows w.server) (rows (exec pq conn sql w).1.server)
  unfolding exec
  exec-Answered sql w s e h =
      hold-Answered pq rows (pq.exec conn sql w.server) (record w { sent = w.sent ++ sql ∷ [] })
        (rows w.server)
        (subst (λ u. Answered (pq.exec conn sql u).0 (rows u) (rows (pq.exec conn sql u).1)) (sym e)
          h)

  -- The server behind `k` fetches of the query.
  abbrev server_at : State S → ℕ → S
  server_at q k =
      server_after pq q.connection_ q.use_cursor (fetch_statement fetch_size q.cursor_name) k
        q.world.server

  -- The mutex is given back.
  relocked :
      (q : State S) (v : Moving S)
      → contains ℕ_discrete conn q.locked ≡ false
      → record (at q v) { locked = erase ℕ_discrete conn (conn ∷ q.locked) } ≡ at q v
  relocked q v free =
      ap (λ l. record (at q v) { locked = l }) (erased pq conn q.locked (conn ∷ q.locked) free refl)

  one_more :
      (before w : List Bytes) (name : Bytes) (k : ℕ)
      → w ≡ before ++ fetch_statements fetch_size true name k
      → w ++ fetch_statement fetch_size name ∷ []
        ≡ before ++ fetch_statements fetch_size true name (suc k)
  one_more before w name k e = rw e (append_assoc before _ _ ∙ ap (◌++◌ before) (repeated-snoc k _))

  -- The end of FetchCursor, with the answer to FETCH.
  accepted-Fetched :
      (q : State S) (v : Moving S) (k : ℕ) (result : Option PgResult) (w : World S)
      → contains ℕ_discrete conn q.locked ≡ false
      → w.sent ≡ q.world.sent ++ fetch_statements fetch_size q.use_cursor q.cursor_name k
      → w.server ≡ server_at q k
      → Answered result (rows v.world.server) (rows w.server)
      → Fetched (Streams pq fetch_size q) (results_left pq rows) (results_left pq rows (at q v)) (
          unlock conn (
            accept pq conn is_tuples_ok result
              (record (at q v) { locked = conn ∷ q.locked; world = w })))
  unfolding Conn.clear
  accepted-Fetched q v k none w free e r h =
      let v' = record v { world = w; error = pq.connection_error conn w.server } in
      (v', k, relocked q v' free, e, r)
  accepted-Fetched q v k (some result) w free e r h =
      let v' = record v { world = w } in
      let v'' = record v { world = Conn.clear pq (some result) w; error = result.error_message } in
      elim (Bool-cases (is_tuples_ok result.status)) [
        | inl ok ↦
            rw ok ((v', k, relocked q v' free, e, r), omega (arith, h.0), λ n. omega (arith, h.1 n))
        | inr refused ↦ rw refused (v'', k, relocked q v'' free, e, r)
      ]

  -- The one result of a query without a cursor.
  immediate-Fetched :
      (q : State S) (w : World S) (e : Bytes) (immediate_done : Bool) (result : Option PgResult)
      (k : ℕ)
      → w.sent ≡ q.world.sent ++ fetch_statements fetch_size q.use_cursor q.cursor_name k
      → w.server ≡ server_at q k
      → let t = at q (record {
        world = w;
        immediate_result = result;
        immediate_done = immediate_done;
        error = e;
      }) in
        Fetched (Streams pq fetch_size q) (results_left pq rows) (results_left pq rows t) (
          if immediate_done
          then done (none, t)
          else done (result, record t { immediate_done = true; immediate_result = none }))
  immediate-Fetched q w e true result k s r = (_, k, refl, s, r)
  immediate-Fetched q w e false none k s r = (_, k, refl, s, r)
  immediate-Fetched q w e false (some result) k s r =
      ((_, k, refl, s, r), omega arith, λ n. omega arith)

  -- A query with the members that decide what Fetch does.
  abbrev shaped : State S → Bool → Bool → Bool → State S
  shaped q use_cursor cursor_open started_local_txn = record q {
    connection_ = some conn;
    use_cursor = use_cursor;
    cursor_open = cursor_open;
    started_local_txn = started_local_txn;
  }

  fetch_at :
      (q : State S) (use_cursor cursor_open started : Bool) (v : Moving S) (k : ℕ)
      → contains ℕ_discrete conn q.locked ≡ false
      → v.world.sent ≡ q.world.sent ++ fetch_statements fetch_size use_cursor q.cursor_name k
      → v.world.server ≡ server_at (shaped q use_cursor cursor_open started) k
      → Drains pq fetch_size rows (shaped q use_cursor cursor_open started)
      → let t = at (shaped q use_cursor cursor_open started) v in
        Fetched
          (Streams pq fetch_size (shaped q use_cursor cursor_open started))
          (results_left pq rows)
          (results_left pq rows t)
          (fetch pq fetch_size t)
  unfolding fetch fetch_cursor with_lock
  fetch_at q true false started v k free e r d = (v, k, refl, e, r)
  fetch_at q true true started v k free e r d =
      let sql = fetch_statement fetch_size q.cursor_name in
      let held = exec pq conn sql v.world in
      rw free (
        accepted-Fetched (shaped q true true started) v (suc k) held.0 held.1 free
          (exec-sent pq conn sql v.world ∙ one_more q.world.sent v.world.sent q.cursor_name k e)
          (exec-server pq conn sql v.world ∙ ap (λ u. (pq.exec conn sql u).1) r)
          (exec-Answered sql v.world _ r (d conn k refl refl)))
  fetch_at q false cursor_open started v k free e r d =
      immediate-Fetched (shaped q false cursor_open started) v.world v.error v.immediate_done
        v.immediate_result k e r

  shape :
      (q : State S)
      → q.connection_ ≡ some conn
      → shaped q q.use_cursor q.cursor_open q.started_local_txn ≡ q
  shape q c = ap (λ o. record q { connection_ = o }) (sym c)

  fetch-Fetched :
      (q : State S)
      → IsOpen conn q
      → Drains pq fetch_size rows q
      → (t : State S) → Streams pq fetch_size q t
      → Fetched
          (Streams pq fetch_size q)
          (results_left pq rows)
          (results_left pq rows t)
          (fetch pq fetch_size t)
  fetch-Fetched q i d t s =
      subst
        (λ u.
          Fetched (Streams pq fetch_size q) (results_left pq rows) (results_left pq rows u)
            (fetch pq fetch_size u))
        (sym s.2)
        (subst
          (λ p.
            Fetched (Streams pq fetch_size p) (results_left pq rows)
              (results_left pq rows (at p s.0)) (fetch pq fetch_size (at p s.0)))
          (shape q i.0)
          (fetch_at q q.use_cursor q.cursor_open q.started_local_txn s.0 s.1 i.1 s.3
            (subst (λ p. s.0.world.server ≡ server_at p s.1) (sym (shape q i.0)) s.4)
            (subst (Drains pq fetch_size rows) (sym (shape q i.0)) d)))

  -- StreamingQuery keeps the contract that QueryStream relies on, for every query that Open left
  -- open on a connection with a finite cursor, of which each FETCH that brings rows leaves fewer
  -- to come by a measure of the server. Fetch comes back without a deadlock; since Open, only the
  -- result that is pending, the error and the connections of the process have changed and only
  -- equal FETCHes have been sent and carried out, with a cursor, or nothing, without one; and
  -- fewer results are to come where a fetch brought rows. Clearing a result changes nothing of
  -- that. Close and Abort come back and leave nothing of the query: they close the cursor, and
  -- commit or roll back a transaction that the query began; in_use_ goes down by one if the
  -- connection is from the pool; and the mutexes held and the sessions are those at Open.
  pub streaming_query-Contract :
      (q : State S)
      → IsOpen conn q
      → Drains pq fetch_size rows q
      → Contract
          (streaming_query pq fetch_size)
          (Streams pq fetch_size q)
          (Over fetch_size q)
          (results_left pq rows)
  streaming_query-Contract q i d = record {
    fetches = fetch-Fetched q i d;
    clears = clear-Streams pq fetch_size rows conn q;
    closes = λ t s. (ends-Over pq fetch_size rows conn q i t s).0;
    aborts = λ t s. (ends-Over pq fetch_size rows conn q i t s).1;
  }

module _ {S : Type 0} (pq : Libpq S) where
  server_after-zero :
      (conn : Option ℕ) (use_cursor : Bool) (sql : Bytes) (s : S)
      → server_after pq conn use_cursor sql 0 s ≡ s
  server_after-zero (some conn) true sql s = refl
  server_after-zero (some conn) false sql s = refl
  server_after-zero none use_cursor sql s = refl

  -- Nothing was sent yet.
  pub Streams-refl : (fetch_size : ℤ) (q : State S) → Streams pq fetch_size q q
  Streams-refl fetch_size q = (
    moving q,
    0,
    refl,
    sym (append-nil q.world.sent)
        ∙ ap (◌++◌ q.world.sent)
            (sym (fetch_statements-zero fetch_size q.use_cursor q.cursor_name)),
    sym (
        server_after-zero q.connection_ q.use_cursor (fetch_statement fetch_size q.cursor_name)
          q.world.server),
  )
