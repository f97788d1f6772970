-- ===== src/Shard/Answers.antt =====
-- The calls of QueryStream (src/service/mtdd_shard_service.cpp) as a whole: they return, with
-- chunks in order, and they leave nothing of the query behind.
use mtdd_server.Shard.Contract.{read_from}
use mtdd_server.Base.{
  ℕ, ◌+◌, ◌<◌, Bytes, Bool, true, false, Option, none, some, List, [], is_empty, if◌then◌else◌, ◌≡◌,
  ◌≢◌, refl, arith, inl, inr, ◌⊎◌,
}
use mtdd_server.Base.Int.{ℤ, pos, negsuc, is_positive, pos_part}
use mtdd_server.Codec.FlexMeta.{Flex}
use mtdd_server.Pg.Libpq.{Libpq}
use mtdd_server.Pg.Conn.{ConnectParams}
use mtdd_server.Pg.Stream.Request.{QueryRequest}
use mtdd_server.Pg.Stream.State.{State, Outcome, done, stuck}
use mtdd_server.Pg.Stream.Query.{open_query}
use mtdd_server.Shard.Chunks.{
  Status, status_ok, invalid_argument, failed_precondition, cancelled, Client, ResultChunk, Call,
  Run, returns, blocked, out_of_fuel, write, write_error_chunk,
}
use mtdd_server.Shard.Loop.{initial_loop}
use mtdd_server.Shard.Contract.{completed, failed, phase_of, read_from, Ends}
use mtdd_server.Shard.Exits.{Concluded}
use mtdd_server.Shard.Ending.{stream_rows-Ends}
use mtdd_server.Shard.Streaming.{
  streaming_query, IsOpen, IsOver, Drains, results_left, Streams, Over,
}
use mtdd_server.Shard.Streaming.Keeping.{streaming_query-Contract, Streams-refl}
use mtdd_server.Shard.Leases.{open_query-IsOpen}
use mtdd_server.Shard.Start.{Goes}
use mtdd_server.Shard.Service.{Shard}
use mtdd_server.Shard.QueryStream.{
  Left, query_of, fetch_rows_of, wire_batch_rows_of, refused_request, ready_params, leave,
  opened_stream, stream_with, stream_checked, query_stream,
}

-- What a client has read, by the status it gets: with OK one terminal chunk behind everything else,
-- with CANCELLED a beginning of such a stream, and with a refusal nothing.
abbrev pub IsAnswer : Status → List ResultChunk → Type 0
IsAnswer status_ok chunks = (phase_of chunks ≡ some completed) ⊎ (phase_of chunks ≡ some failed)
IsAnswer (cancelled message) chunks = phase_of chunks ≢ none
IsAnswer (invalid_argument message) chunks = chunks ≡ []
IsAnswer (failed_precondition message) chunks = chunks ≡ []

module _ {S C : Type 0} where
  -- The call returns, in `Post`.
  abbrev pub Finishes : (Status → Left S C → Type 0) → Run (Status × Left S C) → Type 0
  Finishes Post (returns (status, l)) = Post status l
  Finishes Post (blocked w) = ⊥
  Finishes Post out_of_fuel = ⊥

positive_wire : (n : ℤ) → 0 < (if is_positive n then pos_part n else 1000)
positive_wire (pos n) = ground arith
positive_wire (negsuc n) = omega arith

module _ {S : Type 0} (pq : Libpq S) (rows : S → ℕ) where
  -- Open comes back, and where it succeeds, its cursor is finite and the fuel is enough for what is
  -- still to come.
  abbrev pub Suffices : ℤ → ℕ → Outcome (Bool × State S) → Type 0
  Suffices fetch_size fuel (done (true, q)) =
      Drains pq fetch_size rows q × (results_left pq rows q + 1 < fuel)
  Suffices fetch_size fuel (done (false, q)) = Unit
  Suffices fetch_size fuel (stuck w) = ⊥

module _ {S C : Type 0} (pq : Libpq S) (client : Client C) (serialize : Flex → Bytes)
    (nonempty : (tree : Flex) → is_empty (serialize tree) ≡ false) (rows : S → ℕ) where
  pub stream-Concluded :
      (fuel conn : ℕ) (s : Shard S) (peer : C) (q : State S)
      → IsOpen conn q
      → Drains pq (fetch_rows_of s.config) rows q
      → results_left pq rows q + 1 < fuel
      → Ends
          (Concluded (Over (fetch_rows_of s.config) q))
          (opened_stream pq client serialize fuel s peer (done (true, q)))
  unfolding phase_of read_from
  stream-Concluded fuel conn s peer q i d enough =
      stream_rows-Ends (streaming_query pq (fetch_rows_of s.config)) client serialize
        (wire_batch_rows_of s.config) (Streams pq (fetch_rows_of s.config) q)
        (Over (fetch_rows_of s.config) q) (results_left pq rows)
        (streaming_query-Contract pq (fetch_rows_of s.config) rows conn q i d) nonempty
        (positive_wire s.config.pg_wire_batch_rows) fuel initial_loop
        (record { query = q; client = peer; written = [] })
        (Streams-refl pq (fetch_rows_of s.config) q, refl) enough

  Concluded-IsOver :
      (fetch_size : ℤ) (q : State S) (m : Run (Status × Call (State S) C))
      → Ends (Concluded (Over fetch_size q)) m
      → Ends (λ _ c. IsOver c.query) m
  Concluded-IsOver fetch_size q (returns (status_ok, c)) h = elim h [
    | inl k ↦ k.0.0
    | inr k ↦ k.0.0
  ]
  Concluded-IsOver fetch_size q (returns (cancelled message, c)) h = h.0.0
  Concluded-IsOver fetch_size q (returns (invalid_argument message, c)) h = absurd h
  Concluded-IsOver fetch_size q (returns (failed_precondition message, c)) h = absurd h
  Concluded-IsOver fetch_size q (blocked w) h = absurd h
  Concluded-IsOver fetch_size q out_of_fuel h = absurd h

  -- If flexbuffers never serializes to nothing, then on a query that Open left open with a finite
  -- cursor, of which each FETCH that brings rows leaves fewer to come by a measure of the server,
  -- and with fuel that exceeds what is left by more than one, QueryStream's loop ends, on whatever
  -- path, and the query then holds no connection, no pending result, no open cursor and no
  -- transaction of its own.
  pub opened_stream-IsOver :
      (fuel conn : ℕ) (s : Shard S) (peer : C) (q : State S)
      → IsOpen conn q
      → Drains pq (fetch_rows_of s.config) rows q
      → results_left pq rows q + 1 < fuel
      → Ends
          (λ _ c. IsOver c.query)
          (opened_stream pq client serialize fuel s peer (done (true, q)))
  opened_stream-IsOver fuel conn s peer q i d enough =
      Concluded-IsOver (fetch_rows_of s.config) q
        (opened_stream pq client serialize fuel s peer (done (true, q)))
        (stream-Concluded fuel conn s peer q i d enough)

  Concluded-IsAnswer :
      (fetch_size : ℤ) (q : State S) (s : Shard S) (m : Run (Status × Call (State S) C))
      → Ends (Concluded (Over fetch_size q)) m
      → Finishes (λ status l. IsAnswer status l.written) (leave s m)
  Concluded-IsAnswer fetch_size q s (returns (status_ok, c)) h = elim h [
    | inl k ↦ inl k.1
    | inr k ↦ inr k.1
  ]
  Concluded-IsAnswer fetch_size q s (returns (cancelled message, c)) h = h.1
  Concluded-IsAnswer fetch_size q s (returns (invalid_argument message, c)) h = absurd h
  Concluded-IsAnswer fetch_size q s (returns (failed_precondition message, c)) h = absurd h
  Concluded-IsAnswer fetch_size q s (blocked w) h = absurd h
  Concluded-IsAnswer fetch_size q s out_of_fuel h = absurd h

  opened_stream-IsAnswer :
      (fuel : ℕ) (s : Shard S) (peer : C) (o : Outcome (Bool × State S))
      → Goes (λ t. (conn : ℕ) × IsOpen conn t) o
      → Suffices pq rows (fetch_rows_of s.config) fuel o
      → Finishes
          (λ status l. IsAnswer status l.written)
          (leave s (opened_stream pq client serialize fuel s peer o))
  unfolding write_error_chunk write phase_of read_from
  opened_stream-IsAnswer fuel s peer (done (true, q)) h e =
      Concluded-IsAnswer (fetch_rows_of s.config) q s
        (opened_stream pq client serialize fuel s peer (done (true, q)))
        (stream-Concluded fuel h.0 s peer q h.1 e.0 e.1)
  opened_stream-IsAnswer fuel s peer (done (false, q)) h e = inr refl
  opened_stream-IsAnswer fuel s peer (stuck w) h e = absurd e

  stream_with-IsAnswer :
      (fuel : ℕ) (params : Option ConnectParams) (request : QueryRequest) (s : Shard S) (peer : C)
      → ((p : ConnectParams)
          → params ≡ some p
          → Suffices pq rows (fetch_rows_of s.config) fuel (open_query pq p request (query_of s)))
      → Finishes
          (λ status l. IsAnswer status l.written)
          (stream_with pq client serialize fuel params request s peer)
  stream_with-IsAnswer fuel none request s peer e = refl
  stream_with-IsAnswer fuel (some p) request s peer e =
      opened_stream-IsAnswer fuel s peer (open_query pq p request (query_of s))
        (open_query-IsOpen pq p request (query_of s) (refl, refl, refl)) (e p refl)

  ready :
      (has_executor : Bool) (params : Option ConnectParams) (p : ConnectParams)
      → ready_params has_executor params ≡ some p
      → params ≡ some p
  ready true params p e = e
  ready false params p e = absurd cc

  stream_checked-IsAnswer :
      (fuel : ℕ) (message : Option Bytes) (request : QueryRequest) (s : Shard S) (peer : C)
      → ((p : ConnectParams)
          → s.connect_params ≡ some p
          → Suffices pq rows (fetch_rows_of s.config) fuel (open_query pq p request (query_of s)))
      → Finishes
          (λ status l. IsAnswer status l.written)
          (stream_checked pq client serialize fuel message request s peer)
  stream_checked-IsAnswer fuel (some m) request s peer e = refl
  stream_checked-IsAnswer fuel none request s peer e =
      stream_with-IsAnswer fuel (ready_params s.has_executor s.connect_params) request s peer
        (λ p h. e p (ready s.has_executor s.connect_params p h))

  -- QueryStream returns, whatever the client does, if flexbuffers never serializes to nothing and,
  -- for a service that has been connected, Open comes back and, where it succeeds, the query's
  -- cursor is finite and the fuel exceeds what is left then by more than one; finite means that by
  -- a measure of the server each FETCH of this cursor that brings rows leaves fewer to come. With
  -- OK the client has been written one terminal chunk, a trailer or an error, behind a schema
  -- chunk and batches in order, or alone; with CANCELLED a beginning of such a stream; and with
  -- INVALID_ARGUMENT or FAILED_PRECONDITION nothing.
  pub query_stream-IsAnswer :
      (fuel : ℕ) (request : QueryRequest) (s : Shard S) (peer : C)
      → ((p : ConnectParams)
          → s.connect_params ≡ some p
          → Suffices pq rows (fetch_rows_of s.config) fuel (open_query pq p request (query_of s)))
      → Finishes
          (λ status l. IsAnswer status l.written)
          (query_stream pq client serialize fuel request s peer)
  unfolding query_stream
  query_stream-IsAnswer fuel request s peer e =
      stream_checked-IsAnswer fuel (refused_request s.config request) request s peer e
