-- ===== src/Shard/Tests/Streams.antt =====
-- The theorems on the calls of QueryStream at the small server.
use mtdd_server.Base.{
  ℕ, ◌+◌, ◌<◌, codes, true, none, some, [], ◌∷◌, erase, ℕ_discrete, equal, starts_with, inl, ◌≡◌,
  refl, arith,
}
use mtdd_server.Base.Int
use mtdd_server.Base.Decimal
use mtdd_server.Base.Int.{pos}
use mtdd_server.Codec.QueryMeta.{is_tuple_streaming_sql}
use mtdd_server.Shard.Service.{ensure_query_request}
use mtdd_server.Codec.QueryMeta.{build_schema_meta}
use mtdd_server.Codec.QueryMeta
use mtdd_server.Pg.Stream.Query.{open_query, start}
use mtdd_server.Pg.Stream.Lease.{acquire_connection}
use mtdd_server.Pg.Stream.Cursor.{open_cursor, begin_if_needed, declare_cursor, declared}
use mtdd_server.Pg.Conn.{ConnectParams, default_params, exec, exec_params, clear}
use mtdd_server.Pg.Pool
use mtdd_server.Pg.Stream.State.{State, done}
use mtdd_server.Shard.Contract.{Contract, Ends}
use mtdd_server.Shard.Streaming.{Streams, Over, IsOver, results_left, streaming_query}
use mtdd_server.Shard.Streaming.Keeping.{streaming_query-Contract}
use mtdd_server.Shard.Service.{make_shard, validate_host_index}
use mtdd_server.Shard.QueryStream.{refused_request, query_stream, query_of, opened_stream}
use mtdd_server.Shard.Dialogue.{dialogue}
use mtdd_server.Shard.Leases.{KeepsSessions}
use mtdd_server.Shard.Contract.{phase_of}
use mtdd_server.Pg.Stream.State.{cursor_name_of}
use mtdd_server.Shard.QueryStream.{fetch_rows_of}
use mtdd_server.Shard.Statements.{completes, new_query, query_stream-Sends, query_stream-Settles}
use mtdd_server.Shard.Answers.{
  Finishes, IsAnswer, Suffices, query_stream-IsAnswer, opened_stream-IsOver,
}
use mtdd_server.Shard.Tests.{
  server, rows_left, server-Drains, reader, bytes_of, bytes_of-nonempty, world, shard, request,
}

abbrev open_query_state : State ℕ
open_query_state = record (query_of shard) {
  connection_ = some 4;
  pooled = true;
  use_cursor = true;
  cursor_open = true;
  started_local_txn = true;
}

streaming_query-Contract_example :
    Contract
      (streaming_query server (pos 100))
      (Streams server (pos 100) open_query_state)
      (Over (pos 100) open_query_state)
      (results_left server rows_left)
streaming_query-Contract_example =
    streaming_query-Contract server (pos 100) rows_left 4 open_query_state (refl, refl, inl refl)
      (server-Drains (pos 100) open_query_state)

left_open : results_left server rows_left open_query_state + 1 < 4
unfolding make_shard
left_open = omega arith

opened_stream-IsOver_example :
    Ends
      (λ _ c. IsOver c.query)
      (opened_stream server reader bytes_of 4 shard 0 (done (true, open_query_state)))
opened_stream-IsOver_example =
    opened_stream-IsOver server reader bytes_of bytes_of-nonempty rows_left 4 4 shard 0
      open_query_state (refl, refl, inl refl)
      (server-Drains (fetch_rows_of shard.config) open_query_state) left_open

-- The query of the idle connection 4, behind AcquireConnection and behind Open.
abbrev acquired : State ℕ
acquired = record (new_query request shard) {
  connection_ = some 4;
  pooled = true;
  use_cursor = true;
  pool = record Pool.initial { configured = true; in_use = pos 1 };
}

abbrev started : State ℕ
started = record acquired {
  started_local_txn = true;
  cursor_open = true;
  cursor_name = codes "mtdd_c_0";
  cursor_counter = 1;
  world = record world {
    sent = codes "BEGIN" ∷ codes "DECLARE mtdd_c_0 NO SCROLL CURSOR FOR SELECT 1" ∷ [];
  };
}

opens :
    (p : ConnectParams)
    → Suffices server rows_left
        (fetch_rows_of shard.config)
        4
        (open_query server p request (query_of shard))
unfolding make_shard exec exec_params equal starts_with open_query QueryMeta.is_tuple_streaming_sql
    QueryMeta.upper_token QueryMeta.before QueryMeta.drop_trailing QueryMeta.drop_leading
    QueryMeta.to_upper acquire_connection Pool.acquire start open_cursor begin_if_needed
    declare_cursor erase ℕ_discrete declared clear cursor_name_of Decimal.to_string
opens p = (server-Drains (fetch_rows_of shard.config) started, omega arith)

query_stream-IsAnswer_example :
    Finishes
      (λ status l. IsAnswer status l.written)
      (query_stream server reader bytes_of 4 request shard 0)
query_stream-IsAnswer_example =
    query_stream-IsAnswer server reader bytes_of bytes_of-nonempty rows_left 4 request shard 0
      (λ p e. opens p)

accepted : refused_request shard.config request ≡ none
unfolding make_shard refused_request validate_host_index ensure_query_request Int.int_cast
accepted = refl

acquires :
    acquire_connection server default_params request (new_query request shard)
    ≡ done (true, acquired)
unfolding make_shard acquire_connection Pool.acquire QueryMeta.is_tuple_streaming_sql
    QueryMeta.upper_token QueryMeta.before QueryMeta.drop_trailing QueryMeta.drop_leading
    QueryMeta.to_upper equal
acquires = refl

starts : start server request acquired ≡ done (true, started)
unfolding make_shard exec exec_params equal starts_with start open_cursor begin_if_needed
    declare_cursor erase ℕ_discrete declared clear cursor_name_of Decimal.to_string
starts = refl

still_enough : results_left server rows_left started + 1 < 4
unfolding make_shard
still_enough = omega arith

query_stream-Sends_example :
    Finishes
      (λ status l.
        (k : ℕ) × (l.service.world.sent
          ≡ dialogue
              (is_tuple_streaming_sql request.text)
              true
              (completes status (phase_of l.written))
              (fetch_rows_of shard.config)
              (cursor_name_of 0)
              request.text
              k))
      (query_stream server reader bytes_of 4 request shard 0)
unfolding is_tuple_streaming_sql make_shard
query_stream-Sends_example =
    query_stream-Sends server reader bytes_of bytes_of-nonempty rows_left 4 4 default_params request
      shard 0 acquired started accepted refl acquires refl starts
      (server-Drains (fetch_rows_of shard.config) started) still_enough

opens_so : open_query server default_params request (query_of shard) ≡ done (true, started)
unfolding make_shard exec exec_params equal starts_with open_query QueryMeta.is_tuple_streaming_sql
    QueryMeta.upper_token QueryMeta.before QueryMeta.drop_trailing QueryMeta.drop_leading
    QueryMeta.to_upper acquire_connection Pool.acquire start open_cursor begin_if_needed
    declare_cursor erase ℕ_discrete declared clear cursor_name_of Decimal.to_string
opens_so = refl

query_stream-Settles_example :
    Finishes
      (λ status l.
        (l.service.pool.in_use ≡ pos 0)
        × KeepsSessions [] shard.sessions l.service.sessions (some 4))
      (query_stream server reader bytes_of 4 request shard 0)
query_stream-Settles_example =
    query_stream-Settles server reader bytes_of bytes_of-nonempty rows_left 4 default_params request
      shard 0 started accepted refl opens_so (server-Drains (fetch_rows_of shard.config) started)
      still_enough
