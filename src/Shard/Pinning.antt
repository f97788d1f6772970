-- ===== src/Shard/Pinning.antt =====
-- A session's queries in QueryStream (src/service/mtdd_shard_service.cpp) run on one connection.
use mtdd_server.Base.{
  ℕ, ◌+◌, ◌<◌, Bytes, Bytes-discrete, Bool, true, false, Option, none, some, [], ◌∷◌, is_empty, ◌≡◌,
  ◌≢◌, refl, ◌∙◌, sym, subst,
}
use mtdd_server.Base.Int.{pos}
use mtdd_server.Base.Maps.{lookup}
use mtdd_server.Codec.FlexMeta.{Flex}
use mtdd_server.Pg.Libpq.{Libpq}
use mtdd_server.Pg.Conn
use mtdd_server.Pg.Conn.{ConnectParams, World}
use mtdd_server.Pg.Sessions
use mtdd_server.Pg.Sessions.{SessionStore, Obtained, connection, nothing}
use mtdd_server.Pg.Sessions.Limit.{get_or_create-Binds}
use mtdd_server.Pg.Stream.Request.{QueryRequest}
use mtdd_server.Pg.Stream.State.{State, Outcome, done, stuck}
use mtdd_server.Pg.Stream.Lease.{acquire_connection, from_session}
use mtdd_server.Pg.Stream.Query.{open_query}
use mtdd_server.Shard.Chunks.{Status, Client, returns}
use mtdd_server.Shard.Streaming.{Drains, results_left}
use mtdd_server.Shard.Leases.{KeepsSessions}
use mtdd_server.Shard.Service.{Shard}
use mtdd_server.Shard.QueryStream.{
  Left, query_of, fetch_rows_of, refused_request, ready_params, query_stream,
}
use mtdd_server.Shard.Answers.{Finishes}
use mtdd_server.Shard.Statements.{new_query, query_stream-Settles}

module _ {S : Type 0} where
  -- The query has this connection, and nothing was connected or sent to get it.
  abbrev pub Pinned : ℕ → World S → Outcome (Bool × State S) → Type 0
  Pinned conn w (done (got, a)) = (got ≡ true) × (a.connection_ ≡ some conn) × (a.world ≡ w)
  Pinned conn w (stuck why) = ⊥

  from_session-Pinned :
      (conn : ℕ) (w : World S) (r : Obtained × SessionStore × World S) (s : State S)
      → r.0 ≡ connection conn
      → r.2 ≡ w
      → Pinned conn w (from_session r s)
  from_session-Pinned conn w (connection c, store, v) s e f = (refl, cc, f)
  from_session-Pinned conn w (nothing none, store, v) s e f = absurd cc
  from_session-Pinned conn w (nothing (some m), store, v) s e f = absurd cc

module _ {S : Type 0} (pq : Libpq S) where
  acquire-Pinned :
      (params : ConnectParams) (id : Bytes) (request : QueryRequest) (conn : ℕ) (s : State S)
      → id ≢ []
      → lookup Bytes-discrete id s.sessions.sessions ≡ some conn
      → Conn.is_healthy pq conn s.world ≡ true
      → Pinned conn s.world (acquire_connection pq params (record request { session_id = id }) s)
  unfolding acquire_connection
  acquire-Pinned params [] request conn s n e h = absurd (n refl)
  acquire-Pinned params (c ∷ id) request conn s n e h =
      let health = Conn.is_healthy pq in
      let connect = Conn.connect pq params (pos 0) in
      let k = (get_or_create-Binds health connect (c ∷ id) s.sessions s.world n).reused conn e h in
      from_session-Pinned conn s.world
        (Sessions.get_or_create health connect (c ∷ id) s.sessions s.world)
        (record s { use_session = true }) k.0 k.2

module _ {S C : Type 0} (pq : Libpq S) (client : Client C) (serialize : Flex → Bytes)
    (nonempty : (tree : Flex) → is_empty (serialize tree) ≡ false) (rows : S → ℕ) where
  bound :
      (id : Bytes) (conn : ℕ) (before after : SessionStore) (o : Option ℕ)
      → id ≢ []
      → o ≡ some conn
      → KeepsSessions id before after o
      → lookup Bytes-discrete id after.sessions ≡ some conn
  bound [] conn before after o n c h = absurd (n refl)
  bound (x ∷ id) conn before after o n c h = h.0 ∙ c

  -- If flexbuffers never serializes to nothing: after a call of QueryStream that passed the checks
  -- after a Connect, opened its query on a connection, with a cursor that is finite, so that by a
  -- measure of the server each FETCH of it that brings rows leaves fewer to come, and with fuel
  -- that exceeds what was left then by more than one, and returned, the next query with the same
  -- session id, which is not empty, acquires the same connection, if that is still healthy, and
  -- nothing is connected or sent to get it.
  pub query_stream-Pins :
      (fuel conn : ℕ) (params : ConnectParams) (request next : QueryRequest) (s : Shard S)
      (peer : C) (q : State S) (reply : Status) (l : Left S C)
      → refused_request s.config request ≡ none
      → ready_params s.has_executor s.connect_params ≡ some params
      → open_query pq params request (query_of s) ≡ done (true, q)
      → q.connection_ ≡ some conn
      → Drains pq (fetch_rows_of s.config) rows q
      → results_left pq rows q + 1 < fuel
      → query_stream pq client serialize fuel request s peer ≡ returns (reply, l)
      → next.session_id ≢ []
      → next.session_id ≡ request.session_id
      → Conn.is_healthy pq conn l.service.world ≡ true
      → Pinned conn l.service.world (acquire_connection pq params next (new_query next l.service))
  query_stream-Pins fuel conn params request next s peer q reply l accepted ready opened c drains
        enough e n same healthy =
      let Settled = λ (status' : Status) (l' : Left S C).
        (l'.service.pool.in_use ≡ s.pool.in_use)
        × KeepsSessions request.session_id s.sessions l'.service.sessions q.connection_ in
      let h = subst (Finishes Settled) e (
        query_stream-Settles pq client serialize nonempty rows fuel params request s peer q accepted
          ready opened drains enough) in
      acquire-Pinned pq params next.session_id next conn (new_query next l.service) n
        (bound next.session_id conn s.sessions l.service.sessions q.connection_ n c (
          subst (λ id. KeepsSessions id s.sessions l.service.sessions q.connection_) (sym same)
            h.1))
        healthy
