-- ===== src/Shard/QueryStream.antt =====
-- QueryStream of src/service/mtdd_shard_service.cpp: the checks, the opening of the query, and its
-- rows.
use mtdd_server.Base.{
  ℕ, Bytes, codes, Bool, true, false, Option, none, some, List, [], length, if◌then◌else◌,
}
use mtdd_server.Base.Int.{ℤ, pos, is_positive, pos_part, ltb_ℤ, int_cast}
use mtdd_server.Codec.FlexMeta.{Flex}
use mtdd_server.Config.{ServerConfig}
use mtdd_server.Pg.Libpq.{Libpq}
use mtdd_server.Pg.Conn.{ConnectParams}
use mtdd_server.Pg.Stream.Request.{QueryRequest}
use mtdd_server.Pg.Stream.State.{State, Outcome, done, stuck}
use mtdd_server.Pg.Stream.Query.{open_query}
use mtdd_server.Shard.Chunks.{
  Status, status_ok, invalid_argument, failed_precondition, Client, ResultChunk, Call, Run, returns,
  blocked, out_of_fuel, ◌>>◌, pure, write_error_chunk,
}
use mtdd_server.Shard.Loop.{initial_loop, message_meta}
use mtdd_server.Shard.Rounds.{stream_rows}
use mtdd_server.Shard.Streaming.{streaming_query}
use mtdd_server.Shard.Service.{Shard, validate_host_index, ensure_query_request}

-- What a call leaves behind: the service, the client, and the chunks written.
pub record Left (S C : Type 0) : Type 0 where
  pub service : Shard S
  pub client : C
  pub written : List ResultChunk

-- A refusal by the request alone.
abbrev pub refused_text : ServerConfig → QueryRequest → Option Bytes → Option Bytes
refused_text config request (some message) = some message
refused_text config request none =
    if ltb_ℤ config.max_query_text_bytes (int_cast (pos (length request.text)))
    then some (codes "query text exceeds MTDD_MAX_QUERY_TEXT_BYTES")
    else none

abbrev pub refused_query : ServerConfig → QueryRequest → Option Bytes → Option Bytes
refused_query config request (some message) = some message
refused_query config request none = refused_text config request (ensure_query_request request)

unfoldable pub refused_request : ServerConfig → QueryRequest → Option Bytes
refused_request config request =
    refused_query config request (validate_host_index config request.host_index)

-- `if (!executor_ || !connect_params_.has_value())`
abbrev pub ready_params : Bool → Option ConnectParams → Option ConnectParams
ready_params false params = none
ready_params true params = params

-- The clamps of the two sizes.
abbrev pub fetch_rows_of : ServerConfig → ℤ
fetch_rows_of config = if is_positive config.pg_fetch_rows then config.pg_fetch_rows else pos 10000

abbrev pub wire_batch_rows_of : ServerConfig → ℕ
wire_batch_rows_of config =
    if is_positive config.pg_wire_batch_rows then pos_part config.pg_wire_batch_rows else 1000

module _ {S : Type 0} where
  -- The StreamingQuery that the call constructs, with the members of the service it points to.
  abbrev pub query_of : Shard S → State S
  query_of s = record {
    connection_ = none;
    pooled = false;
    use_session = false;
    use_cursor = false;
    started_local_txn = false;
    cursor_open = false;
    immediate_done = false;
    immediate_result = none;
    cursor_name = [];
    pool = s.pool;
    sessions = s.sessions;
    world = s.world;
    cursor_counter = s.cursor_counter;
    locked = [];
    error = [];
  }

  abbrev pub with_query : Shard S → State S → Shard S
  with_query s q = record s {
    pool = q.pool;
    sessions = q.sessions;
    world = q.world;
    cursor_counter = q.cursor_counter;
  }

module _ {S C : Type 0} where
  -- The end of the StreamingQuery's scope, which does not release anything.
  abbrev pub leave : Shard S → Run (Status × Call (State S) C) → Run (Status × Left S C)
  leave s (returns (status, c)) =
      returns
        (status, record { service = with_query s c.query; client = c.client; written = c.written })
  leave s (blocked w) = blocked w
  leave s out_of_fuel = out_of_fuel

module _ {S C : Type 0} (pq : Libpq S) (client : Client C) (serialize : Flex → Bytes) where
  -- Behind Open.
  abbrev pub opened_stream :
      ℕ → Shard S → C → Outcome (Bool × State S) → Run (Status × Call (State S) C)
  opened_stream fuel s peer (done (true, q)) =
      stream_rows (streaming_query pq (fetch_rows_of s.config)) client serialize
        (wire_batch_rows_of s.config) fuel initial_loop
        (record { query = q; client = peer; written = [] })
  opened_stream fuel s peer (done (false, q)) =
      (do write_error_chunk client serialize (message_meta q.error); pure status_ok)
        (record { query = q; client = peer; written = [] })
  opened_stream fuel s peer (stuck w) = blocked w

  -- Behind the check that Connect was called.
  abbrev pub stream_with :
      ℕ → Option ConnectParams → QueryRequest → Shard S → C → Run (Status × Left S C)
  stream_with fuel none request s peer = returns (
    failed_precondition (codes "Connect must be called first"),
    record { service = s; client = peer; written = [] },
  )
  stream_with fuel (some params) request s peer =
      leave s (opened_stream fuel s peer (open_query pq params request (query_of s)))

  -- Behind the checks of the request.
  abbrev pub stream_checked :
      ℕ → Option Bytes → QueryRequest → Shard S → C → Run (Status × Left S C)
  stream_checked fuel (some message) request s peer =
      returns (invalid_argument message, record { service = s; client = peer; written = [] })
  stream_checked fuel none request s peer =
      stream_with fuel (ready_params s.has_executor s.connect_params) request s peer

  unfoldable pub query_stream : ℕ → QueryRequest → Shard S → C → Run (Status × Left S C)
  unfolding stream_rows write_error_chunk open_query
  query_stream fuel request s peer =
      stream_checked fuel (refused_request s.config request) request s peer
