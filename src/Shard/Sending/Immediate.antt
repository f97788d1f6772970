-- ===== src/Shard/Sending/Immediate.antt =====
-- The statements with which Open of StreamingQuery (src/pg/streaming_query.cpp) starts a query,
-- with a cursor or without.
use mtdd_server.Base.{
  ℕ, Bool, true, false, Option, none, some, [], ◌∷◌, ◌++◌, Bool-cases, inl, inr, ◌≡◌, refl, sym,
  subst,
}
use mtdd_server.Pg.Libpq.{Libpq, PgResult}
use mtdd_server.Pg.Conn.{World, exec_params}
use mtdd_server.Pg.Stream.Request.{QueryRequest, build_params, result_format_flag}
use mtdd_server.Pg.Stream.State.{State, continue, with_lock, unlock, is_ok_status, accept}
use mtdd_server.Pg.Stream.Query.{execute_immediate, keep_immediate, start}
use mtdd_server.Pg.Stream.Steps.{exec_params-sent}
use mtdd_server.Shard.Start.{given_up, Goes}
use mtdd_server.Shard.Sending.{is_idle, Started, IsFresh, unlocked-SameLease, open_cursor-Started}

module _ {S : Type 0} (pq : Libpq S) (conn : ℕ) where
  immediate-Started :
      (request : QueryRequest) (begins : Bool) (result : Option PgResult) (s : State S)
      (w : World S)
      → IsFresh conn s
      → s.use_cursor ≡ false
      → w.sent ≡ s.world.sent ++ request.text ∷ []
      → Goes (Started (record s { use_cursor = false }) request begins) (
          continue
            (unlock conn (
              accept pq conn is_ok_status result
                (record s { use_cursor = false; locked = conn ∷ s.locked; world = w })))
            (keep_immediate pq))
  immediate-Started request begins none s w i u e =
      given_up (Started (record s { use_cursor = false }) request begins) _
  immediate-Started request begins (some result) s w i u e =
      elim (Bool-cases (is_ok_status result.status)) [
        | inl ok ↦
            rw ok
              (unlocked-SameLease pq conn (record s { use_cursor = false }) i.1, i.3, i.2, e, refl)
        | inr refused ↦
            rw refused (given_up (Started (record s { use_cursor = false }) request begins) _)
      ]

  start_at :
      (request : QueryRequest) (use_cursor : Bool) (s : State S)
      → IsFresh conn s
      → s.use_cursor ≡ use_cursor
      → let t = record s { connection_ = some conn; use_cursor = use_cursor } in
        Goes
          (Started t request (is_idle (pq.transaction_status conn s.world.server)))
          (start pq request t)
  unfolding start execute_immediate with_lock
  start_at request true s i u =
      open_cursor-Started pq conn request (record s { connection_ = some conn; use_cursor = true })
        refl i.1 i.3
  start_at request false s i u =
      let held =
        exec_params pq conn request.text (build_params request) (result_format_flag request)
          s.world in
      rw i.1 (
        immediate-Started request (is_idle (pq.transaction_status conn s.world.server)) held.0
          (record s { connection_ = some conn; use_cursor = false }) held.1 (refl, i.1, i.2, i.3)
          refl
          (exec_params-sent pq conn request.text (build_params request) (result_format_flag request)
            s.world))

  -- Where the start returns true, these statements were sent, and nothing else of the lease
  -- changed.
  pub start-Started :
      (request : QueryRequest) (s : State S)
      → IsFresh conn s
      → Goes
          (Started s request (is_idle (pq.transaction_status conn s.world.server)))
          (start pq request s)
  start-Started request s i =
      subst
        (λ c.
          Goes
            (Started (record s { connection_ = c }) request
              (is_idle (pq.transaction_status conn s.world.server)))
            (start pq request (record s { connection_ = c })))
        (sym i.0) (start_at request s.use_cursor s i refl)
