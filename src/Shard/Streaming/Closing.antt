-- ===== src/Shard/Streaming/Closing.antt =====
-- Close and Abort of StreamingQuery (src/pg/streaming_query.cpp) at the end of a query that was
-- opened and has fetched since.
use mathlib.Core.List.{[]}
use mathlib.Core.List.{append_assoc}
use mtdd_server.Base.{
  ℕ, Bool, true, false, Option, none, some, inl, inr, ◌≡◌, refl, ap, ◌∙◌, sym, subst, arith, ◌++◌,
}
use mtdd_server.Base.Int.{ℤ, decrement}
use mtdd_server.Pg.Libpq.{Libpq, PgResult}
use mtdd_server.Pg.Conn
use mtdd_server.Pg.Stream.State.{State, Outcome, done, stuck}
use mtdd_server.Pg.Stream.Query.{close, abort}
use mtdd_server.Pg.Stream.Lease.{release_connection}
use mtdd_server.Pg.Stream.Steps.{Ends, clear-sent}
use mtdd_server.Pg.Stream.End.{IsReleased, cleanup, close-abort_lem}
use mtdd_server.Pg.Pool
use mtdd_server.Pg.Pool.{ConnectionManager}
use mtdd_server.Shard.Contract.{Finished}
use mtdd_server.Shard.Streaming.{Moving, at, Streams, IsOpen, Over, results_left, fetch_statements}

module _ {S : Type 0} (pq : Libpq S) (fetch_size : ℤ) (rows : S → ℕ) (conn : ℕ) where
  -- The statements of the end stand behind those of the fetches.
  Over-IsReleased :
      (q : State S) (v : Moving S) (k : ℕ) (commit : Bool) (o : Outcome (Unit {0} × State S))
      → v.world.sent ≡ q.world.sent ++ fetch_statements fetch_size q.use_cursor q.cursor_name k
      → Ends (IsReleased commit (at q v)) o
      → Finished (Over fetch_size q commit) o
  Over-IsReleased q v k commit (done (_, t)) e h = (
    (h.0, h.1, h.2, h.3, h.4),
    h.5,
    h.6,
    h.7,
    k,
    h.8
        ∙ ap (λ l. l ++ cleanup commit q) e
        ∙ append_assoc q.world.sent (fetch_statements fetch_size q.use_cursor q.cursor_name k)
            (cleanup commit q),
  )
  Over-IsReleased q v k commit (stuck w) e h = absurd h

  -- A query without a cursor.
  abbrev plain : State S → Bool → State S
  plain q pooled = record q {
    connection_ = some conn;
    use_cursor = false;
    cursor_open = false;
    started_local_txn = false;
    pooled = pooled;
  }

  released_in_use :
      (broken healthy : Bool) (pool : ConnectionManager)
      → (Pool.release (some conn) broken healthy pool).in_use ≡ decrement pool.in_use
  unfolding Pool.release
  released_in_use broken healthy pool = ground arith

  plain_end :
      (q : State S) (pooled : Bool) (v : Moving S) (k : ℕ)
      → v.world.sent ≡ q.world.sent ++ []
      → let p = plain q pooled in
        Finished (Over fetch_size p true) (close pq (at p v))
        × Finished (Over fetch_size p false) (abort pq (at p v))
  unfolding close abort release_connection
  plain_end q true v k e =
      let sent = clear-sent pq v.immediate_result v.world ∙ e in
      (
        ((refl, refl, refl, refl, refl), refl, refl, released_in_use _ _ q.pool, k, sent),
        ((refl, refl, refl, refl, refl), refl, refl, released_in_use _ _ q.pool, k, sent),
      )
  plain_end q false v k e =
      let sent = clear-sent pq v.immediate_result v.world ∙ e in
      (
        ((refl, refl, refl, refl, refl), refl, refl, refl, k, sent),
        ((refl, refl, refl, refl, refl), refl, refl, refl, k, sent),
      )

  abbrev Ending : State S → Moving S → Type 0
  Ending q v =
      Finished (Over fetch_size q true) (close pq (at q v))
      × Finished (Over fetch_size q false) (abort pq (at q v))

  ends_at :
      (q : State S) (v : Moving S) (k : ℕ)
      → IsOpen conn q
      → v.world.sent ≡ q.world.sent ++ fetch_statements fetch_size q.use_cursor q.cursor_name k
      → Ending q v
  ends_at q v k i e = elim i.2 [
    | inl u ↦
        let h = close-abort_lem pq (at q v) conn i.0 u i.1 in
        (
          Over-IsReleased q v k true (close pq (at q v)) e h.0,
          Over-IsReleased q v k false (abort pq (at q v)) e h.1,
        )
    | inr h ↦
        subst
          (λ (m : Option ℕ × Bool × Bool × Bool).
            Ending
              (record q {
                connection_ = m.0;
                use_cursor = m.1;
                cursor_open = m.2;
                started_local_txn = m.3;
              })
              v)
          (ground (arith, i.0, h))
          (plain_end q q.pooled v k (
            subst
              (λ u. v.world.sent ≡ q.world.sent ++ fetch_statements fetch_size u q.cursor_name k)
              h.0 e))
  ]

  pub ends-Over :
      (q : State S)
      → IsOpen conn q
      → (t : State S) → Streams pq fetch_size q t
      → Finished (Over fetch_size q true) (close pq t)
        × Finished (Over fetch_size q false) (abort pq t)
  ends-Over q i t s =
      subst
        (λ u.
          Finished (Over fetch_size q true) (close pq u)
          × Finished (Over fetch_size q false) (abort pq u))
        (sym s.2) (ends_at q s.0 s.1 i s.3)

  -- PQclear of a fetched result.
  pub clear-Streams :
      (q : State S) (r : Option PgResult) (t : State S)
      → Streams pq fetch_size q t
      → let u = record t { world = Conn.clear pq r t.world } in
        Streams pq fetch_size q u × (results_left pq rows u ≡ results_left pq rows t)
  unfolding Conn.clear
  clear-Streams q none t s = (s, refl)
  clear-Streams q (some r) t s = (
    (
      record s.0 { world = Conn.clear pq (some r) s.0.world },
      s.1,
      ap {A = State S} (λ u. record u { world = Conn.clear pq (some r) u.world }) s.2,
      s.3,
      s.4,
    ),
    refl,
  )
