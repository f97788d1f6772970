-- ===== src/Shard/Statements.antt =====
-- A call of QueryStream (src/service/mtdd_shard_service.cpp) seen from the server and from the
-- pool: the statements that it sends, and what it leaves of its lease.
use mtdd_server.Base.{
  ℕ, ◌+◌, ◌<◌, Bytes, Bool, true, false, Option, none, some, ◌++◌, is_empty, ◌≡◌, refl, contains,
  ℕ_discrete, ◌∙◌, sym, subst, inl, inr,
}
use mtdd_server.Base.Int.{ℤ}
use mtdd_server.Codec.FlexMeta.{Flex}
use mtdd_server.Codec.QueryMeta.{is_tuple_streaming_sql}
use mtdd_server.Pg.Libpq.{Libpq}
use mtdd_server.Pg.Conn.{ConnectParams}
use mtdd_server.Pg.Stream.Request.{QueryRequest}
use mtdd_server.Pg.Stream.State.{State, done, cursor_name_of}
use mtdd_server.Pg.Stream.Lease.{acquire_connection}
use mtdd_server.Pg.Stream.Query.{start, open_query}
use mtdd_server.Pg.Stream.End.{cleanup}
use mtdd_server.Shard.Chunks.{
  Status, status_ok, invalid_argument, failed_precondition, cancelled, Client, Call, Run, returns,
  blocked, out_of_fuel,
}
use mtdd_server.Shard.Contract.{Phase, completed, phase_of, Ends}
use mtdd_server.Shard.Exits.{Concluded}
use mtdd_server.Shard.Streaming.{IsOpen, Over, Drains, results_left, fetch_statements}
use mtdd_server.Shard.Start.{Goes}
use mtdd_server.Shard.Sending.{is_idle, Started}
use mtdd_server.Shard.Sending.Immediate.{start-Started}
use mtdd_server.Shard.Dialogue.{dialogue, dialogue-Started}
use mtdd_server.Shard.Leases.{
  KeepsSessions, Leased, open_query-Leased, acquire_connection-Acquires, Acquires,
}
use mtdd_server.Shard.Leases.{open_query-IsOpen}
use mtdd_server.Shard.Service.{Shard}
use mtdd_server.Shard.QueryStream.{
  Left, query_of, fetch_rows_of, refused_request, ready_params, leave, opened_stream, query_stream,
}
use mtdd_server.Shard.Answers.{Finishes, stream-Concluded}

-- The client was told that all is well, behind a trailer.
abbrev pub completes : Status → Option Phase → Bool
completes status_ok (some completed) = true
completes _ _ = false

module _ {S C : Type 0} where
  -- Commit or roll back, by the status and the chunks.
  abbrev pub OverBy : ℤ → State S → Status → Call (State S) C → Type 0
  OverBy fetch_size q status c = Over fetch_size q (completes status (phase_of c.written)) c.query

  Concluded-OverBy :
      (fetch_size : ℤ) (q : State S) (status : Status) (c : Call (State S) C)
      → Concluded (Over fetch_size q) status c
      → OverBy fetch_size q status c
  Concluded-OverBy fetch_size q status_ok c (inl h) =
      subst (λ p. Over fetch_size q (completes status_ok p) c.query) (sym h.1) h.0
  Concluded-OverBy fetch_size q status_ok c (inr h) =
      subst (λ p. Over fetch_size q (completes status_ok p) c.query) (sym h.1) h.0
  Concluded-OverBy fetch_size q (cancelled message) c h = h.0
  Concluded-OverBy fetch_size q (invalid_argument message) c h = absurd h
  Concluded-OverBy fetch_size q (failed_precondition message) c h = absurd h

module _ {S : Type 0} where
  -- The query that is opened, before it has a connection.
  abbrev pub new_query : QueryRequest → Shard S → State S
  new_query request s = record (query_of s) { use_cursor = is_tuple_streaming_sql request.text }

module _ {S C : Type 0} (pq : Libpq S) (client : Client C) (serialize : Flex → Bytes)
    (nonempty : (tree : Flex) → is_empty (serialize tree) ≡ false) (rows : S → ℕ) where
  leave-OverBy :
      (fetch_size : ℤ) (q : State S) (s : Shard S) (Post : Status → Left S C → Type 0)
      (m : Run (Status × Call (State S) C))
      → ((status : Status) (c : Call (State S) C)
          → OverBy fetch_size q status c
          → Finishes Post (leave s (returns (status, c))))
      → Ends (Concluded (Over fetch_size q)) m
      → Finishes Post (leave s m)
  leave-OverBy fetch_size q s Post (returns (status, c)) k h =
      k status c (Concluded-OverBy fetch_size q status c h)
  leave-OverBy fetch_size q s Post (blocked w) k h = absurd h
  leave-OverBy fetch_size q s Post out_of_fuel k h = absurd h

  -- Open is AcquireConnection and the start.
  open_query-start :
      (params : ConnectParams) (request : QueryRequest) (s : Shard S) (a q : State S)
      → acquire_connection pq params request (new_query request s) ≡ done (true, a)
      → start pq request a ≡ done (true, q)
      → open_query pq params request (query_of s) ≡ done (true, q)
  unfolding open_query
  open_query-start params request s a q e f = rw (e, f) refl

  query_stream-leave :
      (fuel : ℕ) (params : ConnectParams) (request : QueryRequest) (s : Shard S) (peer : C)
      (q : State S)
      → refused_request s.config request ≡ none
      → ready_params s.has_executor s.connect_params ≡ some params
      → open_query pq params request (query_of s) ≡ done (true, q)
      → query_stream pq client serialize fuel request s peer
        ≡ leave s (opened_stream pq client serialize fuel s peer (done (true, q)))
  unfolding query_stream
  query_stream-leave fuel params request s peer q accepted ready e = rw (accepted, ready, e) refl

  -- Behind AcquireConnection.
  acquired :
      (params : ConnectParams) (request : QueryRequest) (s : Shard S) (a : State S)
      → acquire_connection pq params request (new_query request s) ≡ done (true, a)
      → Acquires request.session_id (new_query request s) a
  acquired params request s a e =
      subst (Goes (Acquires request.session_id (new_query request s))) e
        (acquire_connection-Acquires pq params request (new_query request s) (refl, refl, refl))

  -- Behind the start.
  started :
      (conn : ℕ) (params : ConnectParams) (request : QueryRequest) (s : Shard S) (a q : State S)
      → acquire_connection pq params request (new_query request s) ≡ done (true, a)
      → a.connection_ ≡ some conn
      → start pq request a ≡ done (true, q)
      → Started
          (record a { use_cursor = is_tuple_streaming_sql request.text })
          request
          (is_idle (pq.transaction_status conn a.world.server))
          q
  started conn params request s a q e c f =
      let h = acquired params request s a e in
      let begins = is_idle (pq.transaction_status conn a.world.server) in
      subst (λ u. Started (record a { use_cursor = u }) request begins q) h.2
        (subst (Goes (Started a request begins)) f (
          start-Started pq conn request a (
            c,
            subst (λ l. contains ℕ_discrete conn l ≡ false) (sym h.0.0) refl,
            h.1.1.2,
            h.1.1.3,
          )))

  is_open :
      (params : ConnectParams) (request : QueryRequest) (s : Shard S) (q : State S)
      → open_query pq params request (query_of s) ≡ done (true, q)
      → (conn : ℕ) × IsOpen conn q
  is_open params request s q e =
      subst (Goes (λ t. (conn : ℕ) × IsOpen conn t)) e
        (open_query-IsOpen pq params request (query_of s) (refl, refl, refl))

  -- If flexbuffers never serializes to nothing, the request passes the checks after a Connect,
  -- AcquireConnection gives a connection, the start of the query on it succeeds, its cursor is
  -- finite, so that by a measure of the server each FETCH of it that brings rows leaves fewer to
  -- come, and the fuel exceeds what is left then by more than one: then QueryStream returns,
  -- whatever the client does, and behind what acquiring has sent the server has been sent exactly
  -- this. A query with a cursor: BEGIN, if the connection's transaction was idle; DECLARE of the
  -- next cursor name; some number of equal FETCHes; CLOSE; and, if it began the transaction,
  -- COMMIT if the status is OK and the chunks end with a trailer, and ROLLBACK otherwise. Any
  -- other query: its text alone.
  pub query_stream-Sends :
      (fuel conn : ℕ) (params : ConnectParams) (request : QueryRequest) (s : Shard S) (peer : C)
      (a q : State S)
      → refused_request s.config request ≡ none
      → ready_params s.has_executor s.connect_params ≡ some params
      → acquire_connection pq params request (new_query request s) ≡ done (true, a)
      → a.connection_ ≡ some conn
      → start pq request a ≡ done (true, q)
      → Drains pq (fetch_rows_of s.config) rows q
      → results_left pq rows q + 1 < fuel
      → Finishes
          (λ status l.
            (k : ℕ) × (l.service.world.sent
              ≡ a.world.sent
                ++ dialogue
                    (is_tuple_streaming_sql request.text)
                    (is_idle (pq.transaction_status conn a.world.server))
                    (completes status (phase_of l.written))
                    (fetch_rows_of s.config)
                    (cursor_name_of a.cursor_counter)
                    request.text
                    k))
          (query_stream pq client serialize fuel request s peer)
  query_stream-Sends fuel conn params request s peer a q accepted ready e c f drains enough =
      let opened = open_query-start params request s a q e f in
      let i = is_open params request s q opened in
      let h = started conn params request s a q e c f in
      let fetch_size = fetch_rows_of s.config in
      let begins = is_idle (pq.transaction_status conn a.world.server) in
      rw (query_stream-leave fuel params request s peer q accepted ready opened) (
        leave-OverBy fetch_size q s _
          (opened_stream pq client serialize fuel s peer (done (true, q)))
          (λ status c' o. (
            o.4,
            dialogue-Started (is_tuple_streaming_sql request.text)
                (completes status (phase_of c'.written)) begins fetch_size o.4 request a q
                c'.query.world.sent h
                (subst
                  (λ u.
                    c'.query.world.sent
                    ≡ q.world.sent
                      ++ (fetch_statements fetch_size u q.cursor_name o.4
                          ++ cleanup (completes status (phase_of c'.written)) q))
                  h.0.5 o.5),
          ))
          (stream-Concluded pq client serialize nonempty rows fuel i.0 s peer q i.1 drains enough))

  -- If flexbuffers never serializes to nothing, the request passes the checks after a Connect,
  -- Open succeeds, the query's cursor is finite, so that by a measure of the server each FETCH of
  -- it that brings rows leaves fewer to come, and the fuel exceeds what is left then by more than
  -- one: then QueryStream returns, whatever the client does, and the pool's in_use_ is what it was
  -- before the call. Without a session id the sessions are what they were; a session id is bound
  -- to the connection that the query ran on, and every other session is bound as before.
  pub query_stream-Settles :
      (fuel : ℕ) (params : ConnectParams) (request : QueryRequest) (s : Shard S) (peer : C)
      (q : State S)
      → refused_request s.config request ≡ none
      → ready_params s.has_executor s.connect_params ≡ some params
      → open_query pq params request (query_of s) ≡ done (true, q)
      → Drains pq (fetch_rows_of s.config) rows q
      → results_left pq rows q + 1 < fuel
      → Finishes
          (λ status l.
            (l.service.pool.in_use ≡ s.pool.in_use)
            × KeepsSessions request.session_id s.sessions l.service.sessions q.connection_)
          (query_stream pq client serialize fuel request s peer)
  query_stream-Settles fuel params request s peer q accepted ready opened drains enough =
      let i = is_open params request s q opened in
      let h =
        subst (Goes (Leased request.session_id (query_of s))) opened
          (open_query-Leased pq params request (query_of s) (refl, refl, refl)) in
      rw (query_stream-leave fuel params request s peer q accepted ready opened) (
        leave-OverBy (fetch_rows_of s.config) q s _
          (opened_stream pq client serialize fuel s peer (done (true, q)))
          (λ status c o. (
            o.3 ∙ h.1,
            subst (λ after. KeepsSessions request.session_id s.sessions after q.connection_)
                (sym o.2) h.2,
          ))
          (stream-Concluded pq client serialize nonempty rows fuel i.0 s peer q i.1 drains enough))
