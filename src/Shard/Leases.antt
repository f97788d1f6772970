-- ===== src/Shard/Leases.antt =====
-- The lease of a query: what AcquireConnection of StreamingQuery (src/pg/streaming_query.cpp) takes
-- from the pool or the session store, and what the start of the query leaves of it.
use mtdd_server.Base.{
  ℕ, zero, suc, Bytes, Bytes-discrete, Bool, true, false, Option, none, some, [], ◌∷◌, contains,
  ℕ_discrete, inl, inr, if◌then◌else◌, ◌≡◌, ◌≢◌, refl, ◌∙◌, sym, subst, arith,
}
use mtdd_server.Base.Int.{ℤ, pos, negsuc, increment, decrement}
use mtdd_server.Base.Maps.{lookup}
use mtdd_server.Base.Results.{Result, ok, throw}
use mtdd_server.Pg.Libpq.{Libpq}
use mtdd_server.Pg.Conn
use mtdd_server.Pg.Conn.{ConnectParams, World}
use mtdd_server.Pg.Pool
use mtdd_server.Pg.Pool.{ConnectionManager, Acquired, waits, takes, creates}
use mtdd_server.Pg.Sessions
use mtdd_server.Pg.Sessions.{SessionStore, Obtained, connection, nothing}
use mtdd_server.Pg.Sessions.Limit.{Binds, get_or_create-Binds}
use mtdd_server.Codec.QueryMeta.{is_tuple_streaming_sql}
use mtdd_server.Pg.Stream.Request.{QueryRequest}
use mtdd_server.Pg.Stream.State.{State, pure}
use mtdd_server.Pg.Stream.Lease.{acquire_connection, from_session, from_pool, from_new}
use mtdd_server.Pg.Stream.Query.{start, open_query}
use mtdd_server.Shard.Streaming.{IsOpen}
use mtdd_server.Shard.Start.{Goes-weaken, Goes, Goes-continue}
use mtdd_server.Shard.Sending.{IsFresh, SameLease, Started, is_idle}
use mtdd_server.Shard.Sending.Immediate.{start-Started}

-- The pool's counter once a pooled query has given its place back.
abbrev pub given_back : Bool → ℤ → ℤ
given_back pooled in_use = if pooled then decrement in_use else in_use

-- Without a session id the sessions are what they were. A session id is bound to the query's
-- connection, and the other sessions are bound as before.
abbrev pub KeepsSessions : Bytes → SessionStore → SessionStore → Option ℕ → Type 0
KeepsSessions [] before after conn = after ≡ before
KeepsSessions (c ∷ id) before after conn =
    (lookup Bytes-discrete (c ∷ id) after.sessions ≡ conn)
    × ((j : Bytes)
        → j ≢ c ∷ id
        → lookup Bytes-discrete j after.sessions ≡ lookup Bytes-discrete j before.sessions)

KeepsSessions-empty :
    (id : Bytes) (before after : SessionStore) (conn : Option ℕ)
    → id ≡ []
    → after ≡ before
    → KeepsSessions id before after conn
KeepsSessions-empty [] before after conn i e = e
KeepsSessions-empty (c ∷ id) before after conn i e = absurd cc

KeepsSessions-bound :
    (id : Bytes) (before after : SessionStore) (conn : Option ℕ)
    → id ≢ []
    → lookup Bytes-discrete id after.sessions ≡ conn
    → ((j : Bytes)
        → j ≢ id
        → lookup Bytes-discrete j after.sessions ≡ lookup Bytes-discrete j before.sessions)
    → KeepsSessions id before after conn
KeepsSessions-bound [] before after conn n e h = absurd (n refl)
KeepsSessions-bound (c ∷ id) before after conn n e h = (e, h)

module _ {S : Type 0} where
  abbrev pub Leased : Bytes → State S → State S → Type 0
  Leased id s t =
      (t.locked ≡ s.locked)
      × (given_back t.pooled t.pool.in_use ≡ s.pool.in_use)
      × KeepsSessions id s.sessions t.sessions t.connection_

  -- A query that is new, but for its kind.
  abbrev pub IsNew : State S → Type 0
  IsNew s = (s.locked ≡ []) × (s.cursor_open ≡ false) × (s.started_local_txn ≡ false)

  abbrev pub Acquires : Bytes → State S → State S → Type 0
  Acquires id s t =
      Leased id s t
      × ((conn : ℕ) × IsFresh conn t)
      × (t.use_cursor ≡ s.use_cursor)
      × (t.cursor_counter ≡ s.cursor_counter)

  pub SameLease-Leased :
      (id : Bytes) (s t u : State S) → Leased id s t → SameLease t u → Leased id s u
  SameLease-Leased id s t u l e = (
    ground (arith, l.0, e),
    ground (arith, l.1, e),
    subst (λ (r : SessionStore × Option ℕ). KeepsSessions id s.sessions r.0 r.1) (ground (arith, e))
        l.2,
  )

decrement-increment : (z : ℤ) → decrement (increment z) ≡ z
decrement-increment (pos n) = refl
decrement-increment (negsuc zero) = refl
decrement-increment (negsuc (suc n)) = refl

module _ {S : Type 0} (pq : Libpq S) where
  IsFresh-at :
      (conn : ℕ) (s : State S) → IsNew s → IsFresh conn (record s { connection_ = some conn })
  IsFresh-at conn s n =
      (refl, subst (λ l. contains ℕ_discrete conn l ≡ false) (sym n.0) refl, n.1, n.2)

  from_session-Acquires :
      (params : ConnectParams) (id : Bytes) (s : State S) (r : Obtained × SessionStore × World S)
      → IsNew s
      → id ≢ []
      → Binds (Conn.is_healthy pq) (Conn.connect pq params (pos 0)) id s.sessions s.world r
      → Goes (Acquires id s) (from_session r s)
  from_session-Acquires params id s (connection conn, store, w) n i b = (
    (
      refl,
      refl,
      KeepsSessions-bound id s.sessions store (some conn) i (b.bound conn refl) b.others,
    ),
    (conn, IsFresh-at conn s n),
    refl,
    refl,
  )
  from_session-Acquires params id s (nothing none, store, w) n i b = tt
  from_session-Acquires params id s (nothing (some e), store, w) n i b = tt

  from_new-Acquires :
      (opened : Result ℕ × World S) (m : ConnectionManager) (id : Bytes) (s : State S)
      → IsNew s
      → id ≡ []
      → m.in_use ≡ increment s.pool.in_use
      → Goes (Acquires id s) (from_new pq opened m s)
  from_new-Acquires (ok conn, w) m id s n i e = (
    (
      refl,
      ground (arith, decrement-increment s.pool.in_use),
      KeepsSessions-empty id s.sessions s.sessions (some conn) i refl,
    ),
    (conn, IsFresh-at conn s n),
    refl,
    refl,
  )
  from_new-Acquires (throw what, w) m id s n i e = tt

  -- An idle connection or a new one is counted.
  abbrev Counts : ℤ → Acquired → Type 0
  Counts n waits = Unit
  Counts n (takes conn m) = m.in_use ≡ increment n
  Counts n (creates m) = m.in_use ≡ increment n

  acquire-Counts : (pool : ConnectionManager) → Counts pool.in_use (Pool.acquire pool)
  unfolding Pool.acquire
  acquire-Counts pool = ground arith

  from_pool-Acquires :
      (acquired : Acquired) (id : Bytes) (s : State S)
      → IsNew s
      → id ≡ []
      → Counts s.pool.in_use acquired
      → Goes (Acquires id s) (from_pool pq acquired s)
  from_pool-Acquires waits id s n i e = tt
  from_pool-Acquires (takes conn m) id s n i e = (
    (
      refl,
      ground (arith, decrement-increment s.pool.in_use),
      KeepsSessions-empty id s.sessions s.sessions (some conn) i refl,
    ),
    (conn, IsFresh-at conn s n),
    refl,
    refl,
  )
  from_pool-Acquires (creates m) id s n i e =
      from_new-Acquires (Conn.connect pq m.params (pos 0) s.world) m id s n i e

  acquire_at :
      (params : ConnectParams) (id : Bytes) (request : QueryRequest) (s : State S)
      → IsNew s
      → Goes (Acquires id s) (acquire_connection pq params (record request { session_id = id }) s)
  unfolding acquire_connection
  acquire_at params [] request s n =
      from_pool-Acquires (Pool.acquire s.pool) [] (record s { use_session = false }) n refl
        (acquire-Counts s.pool)
  acquire_at params (c ∷ id) request s n =
      from_session-Acquires params (c ∷ id) (record s { use_session = true })
        (Sessions.get_or_create (Conn.is_healthy pq) (Conn.connect pq params (pos 0)) (c ∷ id)
          s.sessions s.world)
        n (λ e. cc)
        (get_or_create-Binds (Conn.is_healthy pq) (Conn.connect pq params (pos 0)) (c ∷ id)
          s.sessions s.world (λ e. cc))

  pub acquire_connection-Acquires :
      (params : ConnectParams) (request : QueryRequest) (s : State S)
      → IsNew s
      → Goes (Acquires request.session_id s) (acquire_connection pq params request s)
  acquire_connection-Acquires params request s n = acquire_at params request.session_id request s n

  -- Where Open returns true.
  pub open_query-Leased :
      (params : ConnectParams) (request : QueryRequest) (s : State S)
      → IsNew s
      → Goes (Leased request.session_id s) (open_query pq params request s)
  unfolding open_query
  open_query-Leased params request s n =
      let fresh = record s { use_cursor = is_tuple_streaming_sql request.text } in
      Goes-continue (Leased request.session_id s) (Acquires request.session_id fresh)
        (acquire_connection pq params request fresh)
        (λ acquired. if acquired then start pq request else pure false)
        (acquire_connection-Acquires params request fresh n)
        (λ t h.
          Goes-weaken (Leased request.session_id s)
            (Started t request (is_idle (pq.transaction_status h.1.0 t.world.server)))
            (start pq request t) (start-Started pq h.1.0 request t h.1.1)
            (λ u k. SameLease-Leased request.session_id s t u h.0 k.0))
        (λ t. tt)

  -- A query that was started is open.
  Started-IsOpen :
      (conn : ℕ) (use_cursor begins : Bool) (request : QueryRequest) (s t : State S)
      → IsFresh conn s
      → Started (record s { use_cursor = use_cursor }) request begins t
      → IsOpen conn t
  Started-IsOpen conn true begins request s t f k =
      (k.0.0 ∙ f.0, subst (λ l. contains ℕ_discrete conn l ≡ false) (sym k.0.1) f.1, inl k.0.5)
  Started-IsOpen conn false begins request s t f k = (
    k.0.0 ∙ f.0,
    subst (λ l. contains ℕ_discrete conn l ≡ false) (sym k.0.1) f.1,
    inr (k.0.5, k.2, k.1),
  )

  pub open_query-IsOpen :
      (params : ConnectParams) (request : QueryRequest) (s : State S)
      → IsNew s
      → Goes (λ t. (conn : ℕ) × IsOpen conn t) (open_query pq params request s)
  unfolding open_query
  open_query-IsOpen params request s n =
      let fresh = record s { use_cursor = is_tuple_streaming_sql request.text } in
      Goes-continue (λ t. (conn : ℕ) × IsOpen conn t) (Acquires request.session_id fresh)
        (acquire_connection pq params request fresh)
        (λ acquired. if acquired then start pq request else pure false)
        (acquire_connection-Acquires params request fresh n)
        (λ t h.
          Goes-weaken (λ u. (conn : ℕ) × IsOpen conn u)
            (Started t request (is_idle (pq.transaction_status h.1.0 t.world.server)))
            (start pq request t) (start-Started pq h.1.0 request t h.1.1)
            (λ u k. (
              h.1.0,
              Started-IsOpen h.1.0 t.use_cursor
                  (is_idle (pq.transaction_status h.1.0 t.world.server)) request t u h.1.1 k,
            )))
        (λ t. tt)
