-- ===== src/Shard/Tests/Pinning.antt =====
-- The theorem on a session's connection, at the small server.
use mtdd_server.Base.{◌+◌, ◌<◌, codes, true, none, some, [], ◌∷◌, ◌≡◌, ◌≢◌, refl, arith, ℕ}
use mtdd_server.Pg.Conn.{default_params}
use mtdd_server.Pg.Stream.Request.{QueryRequest}
use mtdd_server.Pg.Stream.State.{State, done}
use mtdd_server.Pg.Stream.Lease.{acquire_connection}
use mtdd_server.Pg.Stream.Query.{open_query}
use mtdd_server.Shard.Chunks.{status_ok, returns}
use mtdd_server.Shard.Service.{Shard}
use mtdd_server.Shard.Streaming.{results_left}
use mtdd_server.Shard.QueryStream.{Left, query_of, fetch_rows_of, refused_request, query_stream}
use mtdd_server.Shard.Statements.{new_query}
use mtdd_server.Shard.Pinning.{Pinned, query_stream-Pins}
use mtdd_server.Shard.Tests.{
  server, rows_left, server-Drains, reader, bytes_of, bytes_of-nonempty, shard, request, result_of,
}
use mtdd_server.Pg.Libpq.{command_ok}
use mtdd_server.Pg.Sessions
use mtdd_server.Pg.Conn
use mtdd_server.Base.Maps
use mtdd_server.Base.Int.{int_cast}
use mtdd_server.Base.{Bytes-discrete, ℕ_discrete, equal, erase}
use mtdd_server.Codec.QueryMeta
use mtdd_server.Codec.QueryMeta.{build_command_trailer, command_from_status}
use mtdd_server.Codec.FlexMeta.{encode_result_trailer}
use mtdd_server.Pg.Stream.Request
use mtdd_server.Pg.Stream.Query.{start, execute_immediate, fetch, close}
use mtdd_server.Pg.Stream.Lease.{release_connection}
use mtdd_server.Shard.Service.{make_shard, validate_host_index, ensure_query_request}
use mtdd_server.Shard.Rounds.{stream_rows, round, on_fetch, on_result, settle}
use mtdd_server.Shard.Loop.{complete}
use mtdd_server.Shard.Chunks.{is_cancelled, write, write_result_chunk, trailer}

-- A session that is bound to the connection 4.
abbrev bound_shard : Shard ℕ
bound_shard = record shard { sessions = record shard.sessions { sessions = (codes "s1", 4) ∷ [] } }

abbrev session_request : QueryRequest
session_request = record request { text = codes "LISTEN x"; session_id = codes "s1" }

abbrev opened : State ℕ
opened = record (query_of bound_shard) {
  connection_ = some 4;
  use_session = true;
  immediate_result = some (result_of command_ok 0 0);
  world = record bound_shard.world { live_results = 1; sent = codes "LISTEN x" ∷ [] };
}

opens :
    open_query server default_params session_request (query_of bound_shard) ≡ done (true, opened)
unfolding open_query acquire_connection Sessions.get_or_create Maps.lookup Bytes-discrete ℕ_discrete
    Conn.is_healthy start QueryMeta.is_tuple_streaming_sql equal QueryMeta.upper_token
    QueryMeta.before QueryMeta.drop_trailing QueryMeta.drop_leading QueryMeta.to_upper
    execute_immediate Conn.exec_params erase make_shard Request.build_params
opens = refl

abbrev left : Left ℕ ℕ
left = record {
  service = record bound_shard {
    world = record bound_shard.world { sent = codes "LISTEN x" ∷ [] };
  };
  client = 1;
  written = record { kind = trailer; flatbuffer_meta = 1 ∷ []; payload = [] } ∷ [];
}

answers :
    query_stream server reader bytes_of 5 session_request bound_shard 0 ≡ returns (status_ok, left)
unfolding open_query acquire_connection Sessions.get_or_create Maps.lookup Bytes-discrete ℕ_discrete
    Conn.is_healthy start QueryMeta.is_tuple_streaming_sql equal QueryMeta.upper_token
    QueryMeta.before QueryMeta.drop_trailing QueryMeta.drop_leading QueryMeta.to_upper
    execute_immediate Conn.exec_params erase make_shard query_stream refused_request
    validate_host_index ensure_query_request int_cast stream_rows Conn.clear round is_cancelled
    fetch on_fetch on_result complete encode_result_trailer write_result_chunk write
    build_command_trailer command_from_status close release_connection settle Request.build_params
answers = refl

accepted : refused_request bound_shard.config session_request ≡ none
unfolding make_shard refused_request validate_host_index ensure_query_request int_cast
accepted = refl

enough : results_left server rows_left opened + 1 < 5
unfolding make_shard
enough = omega arith

s1_nonempty : session_request.session_id ≢ []
s1_nonempty e = cc

still_healthy : Conn.is_healthy server 4 left.service.world ≡ true
unfolding Conn.is_healthy
still_healthy = refl

query_stream-Pins_example : Pinned 4 left.service.world (
    acquire_connection server default_params session_request
      (new_query session_request left.service))
query_stream-Pins_example =
    query_stream-Pins server reader bytes_of bytes_of-nonempty rows_left 5 4 default_params
      session_request session_request bound_shard 0 opened status_ok left accepted refl opens refl
      (server-Drains (fetch_rows_of bound_shard.config) opened) enough answers s1_nonempty refl
      still_healthy
