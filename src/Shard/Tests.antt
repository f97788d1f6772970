-- ===== src/Shard/Tests.antt =====
-- A small server that answers the probe with one row, and each FETCH with one row until it has none
-- left, a client that takes
-- every chunk, and a service that is connected.
mod Streams
mod Rows
mod Replies
mod Pinning
use mtdd_server.Base.{
  ℕ, zero, suc, ◌+◌, ◌-◌, ◌<◌, ◌≤◌, ◌^◌, Bytes, codes, true, false, Option, none, some, List, [],
  ◌∷◌, ◌++◌, length, is_empty, erase, ℕ_discrete, equal, starts_with, if◌then◌else◌, min,
  Bool-cases, inl, inr, ◌≡◌, ◌↔◌, refl, arith,
}
use mtdd_server.Base.Int.{ℤ, pos}
use mtdd_server.Base.Results.{Result, ok, throw}
use mtdd_server.Config.{default_config}
use mtdd_server.Codec.FlexMeta.{Flex}
use mtdd_server.Codec.RawBatch.{
  encode_raw_pg_batch, encode_rows, append_columns, append_rows, append_cell, append_u32,
}
use mtdd_server.Codec.QueryMeta.{build_schema_meta}
use mtdd_server.Pg.Libpq.{Libpq, PgResult, ExecStatus, command_ok, tuples_ok, idle}
use mtdd_server.Codec.QueryMeta
use mtdd_server.Pg.Stream.Query.{open_query, start}
use mtdd_server.Pg.Stream.Lease.{acquire_connection}
use mtdd_server.Pg.Stream.Cursor.{open_cursor, begin_if_needed, declare_cursor, declared}
use mtdd_server.Pg.Conn
use mtdd_server.Pg.Conn.{World, ConnectParams, default_params, exec, exec_params, clear}
use mtdd_server.Pg.Pool
use mtdd_server.Pg.Stream.Request.{QueryRequest}
use mtdd_server.Pg.Stream.State.{State, Outcome, done}
use mtdd_server.Shard.Chunks.{status_ok, Client, Query}
use mtdd_server.Shard.Contract.{Contract, Ends}
use mtdd_server.Shard.Streaming.{
  Answered, Drains, fetch_statement, after_fetches, IsOpen, IsOver, results_left, streaming_query,
}
use mtdd_server.Shard.Streaming.Keeping.{streaming_query-Contract}
use mtdd_server.Shard.Loop.{initial_loop}
use mtdd_server.Shard.Rounds.{stream_rows}
use mtdd_server.Shard.Batches.{chunks_of}
use mtdd_server.Shard.Delivery.{Encodes}
use mtdd_server.Shard.Transfer.{Yields, AreTables, total, trailer_chunk}
use mtdd_server.Shard.Split.{IsSplit}
use mtdd_server.Shard.AllRows.{stream_rows-all}
use mtdd_server.Shard.Replies.{
  Registers, IsValid, connect-Registers, connect-failed, refused_request-none,
}
use mtdd_server.Shard.Service.{
  Shard, ConnectRequest, make_shard, build_connect_params, validate_host_index, connect,
}
use mtdd_server.Shard.QueryStream.{refused_request, query_stream, query_of, opened_stream}
use mtdd_server.Shard.Answers.{
  Finishes, IsAnswer, Suffices, query_stream-IsAnswer, opened_stream-IsOver,
}

abbrev pub result_of : ExecStatus → ℕ → ℕ → PgResult
result_of status fields rows = record {
  status = status;
  error_message = codes "refused";
  error_field = λ f. none;
  cmd_status = none;
  cmd_tuples = none;
  num_fields = fields;
  num_rows = rows;
  field_name = λ c. none;
  field_table = λ c. 0;
  field_table_column = λ c. pos 0;
  field_type = λ c. 25;
  field_format = λ c. pos 1;
  is_null = λ r c. true;
  value = λ r c. none;
  value_length = λ r c. pos 0;
}

abbrev pub answer : Bytes → ℕ → Option PgResult × ℕ
answer sql n =
    if starts_with (codes "FETCH") sql
    then (some (result_of tuples_ok 1 (min n 1)), n - 1)
    else if equal sql (codes "SELECT 1")
    then (some (result_of tuples_ok 1 1), n)
    else (some (result_of command_ok 0 0), n)

-- Its state is the number of rows left.
abbrev pub server : Libpq ℕ
server = record {
  connectdb = λ info n. (some 4, n);
  finish = λ conn n. n;
  connection_ok = λ conn n. true;
  connection_error = λ conn n. codes "gone";
  transaction_status = λ conn n. idle;
  exec = λ conn sql n. answer sql n;
  exec_params = λ conn sql params format n. (some (result_of command_ok 0 0), n);
}

abbrev pub rows_left : ℕ → ℕ
rows_left n = n

fetch-Answered :
    (sql : Bytes) (n : ℕ)
    → starts_with (codes "FETCH") sql ≡ true
    → Answered (answer sql n).0 (rows_left n) (rows_left (answer sql n).1)
fetch-Answered sql n e = rw e (omega arith, λ r. ground arith)

pub server-Drains : (fetch_size : ℤ) (q : State ℕ) → Drains server fetch_size rows_left q
server-Drains fetch_size q conn k c u =
    let sql = fetch_statement fetch_size q.cursor_name in
    fetch-Answered sql (after_fetches server conn sql k q.world.server) (unfold starts_with in refl)

-- Its state is the number of chunks that it has taken.
abbrev pub reader : Client ℕ
reader = record { is_cancelled = λ n. (false, n); write = λ chunk n. (true, suc n) }

abbrev pub bytes_of : Flex → Bytes
bytes_of tree = 1 ∷ []

pub bytes_of-nonempty : (tree : Flex) → is_empty (bytes_of tree) ≡ false
bytes_of-nonempty tree = refl

abbrev pub world : World ℕ
world = record { server = 2; open_connections = 4 ∷ []; live_results = 0; sent = [] }

abbrev pub shard : Shard ℕ
shard = record (make_shard default_config none world) {
  pool = record Pool.initial { idle = 4 ∷ []; configured = true };
  connect_params = some default_params;
  has_executor = true;
}

abbrev pub request : QueryRequest
request = record {
  host_index = pos 0;
  text = codes "SELECT 1";
  name = [];
  row_mode = [];
  params = [];
  result_format = pos 1;
  session_id = [];
}
