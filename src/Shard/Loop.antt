-- ===== src/Shard/Loop.antt =====
-- The loop of QueryStream (src/service/mtdd_shard_service.cpp), from the opened query to the
-- status that is returned. The sums `row_begin + wire_batch_rows` are those of unbounded numbers:
-- an int holds them where num_rows + wire_batch_rows < 2^31.
use mtdd_server.Base.{
  ℕ, ◌+◌, Bytes, codes, Bool, true, false, Option, none, some, [], ◌++◌, if◌then◌else◌,
}
use mtdd_server.Base.Int.{pos}
use mtdd_server.Base.Decimal.{to_string}
use mtdd_server.Base.Results.{Result, ok, throw}
use mtdd_server.Pg.Libpq.{PgResult, ExecStatus, tuples_ok, command_ok}
use mtdd_server.Pg.Executor.{PgErrorMeta}
use mtdd_server.Codec.FlexMeta.{Flex, ResultSchema, ResultTrailer, encode_result_trailer}
use mtdd_server.Codec.QueryMeta.{build_schema_meta, build_command_trailer}
use mtdd_server.Shard.Chunks.{
  Status, status_ok, cancelled, trailer, Client, Query, Call, Run, returns, ◌>>=◌, ◌>>◌, pure, lift,
  is_cancelled, write_result_chunk, send_batch_chunk, write_error_chunk,
}

-- The local variables of the loop.
pub record Loop : Type 0 where
  pub schema_meta : ResultSchema
  pub schema_open : Bool
  pub batch_sent : Bool
  pub total_rows : ℕ
  pub last_result : Option PgResult

abbrev pub initial_loop : Loop
initial_loop = record {
  schema_meta = record { command = []; fields = [] };
  schema_open = false;
  batch_sent = false;
  total_rows = 0;
  last_result = none;
}

-- How the `try` block is left: by a `return`, or by an exception with the variables at that time.
pub data Exit : Type 0 where
  returned : Status → Exit
  throws : Bytes → Loop → Exit

-- How a round of the `while` ends.
pub data Flow : Type 0 where
  goes_on breaks : Loop → Flow
  leaves : Exit → Flow

abbrev pub message_meta : Bytes → PgErrorMeta
message_meta message = record {
  meta_sqlstate = [];
  meta_severity = [];
  meta_message = message;
  meta_detail = [];
  meta_position = [];
}

-- PGRES_TUPLES_OK or PGRES_COMMAND_OK
abbrev pub is_expected : ExecStatus → Bool
is_expected tuples_ok = true
is_expected command_ok = true
is_expected _ = false

-- `if (!schema_open)`
abbrev pub open_schema : PgResult → Loop → Loop
open_schema result l =
    if l.schema_open
    then l
    else record l { schema_meta = build_schema_meta result; schema_open = true }

-- The trailer behind the loop.
abbrev trailer_of : Bool → Option PgResult → Loop → ResultTrailer
trailer_of true last l = record {
  command_tag = l.schema_meta.command ++ (codes " " ++ to_string l.total_rows);
  row_count = pos l.total_rows;
  oid = 0;
}
trailer_of false (some result) l = record (build_command_trailer result) { oid = 0 }
trailer_of false none l = record { command_tag = codes "SELECT 0"; row_count = pos 0; oid = 0 }

unfoldable pub final_trailer : Loop → ResultTrailer
final_trailer l = trailer_of l.schema_open l.last_result l

module _ {T C : Type 0} (query : Query T) where
  -- PQclear of a result that may be null.
  abbrev pub clear : Option PgResult → Call T C → Run (Unit {0} × Call T C)
  clear result c = returns (tt, record c { query = query.clear result c.query })

module _ {T C : Type 0} (query : Query T) (client : Client C) where
  -- The client did not take a chunk of rows.
  unfoldable pub refused : Call T C → Run (Exit × Call T C)
  unfolding is_cancelled
  refused = do
    lift query.abort
    now ← is_cancelled client
    pure (returned (cancelled (if now then codes "cancelled" else codes "client cancelled stream")))

module _ {T C : Type 0} (query : Query T) (client : Client C) (serialize : Flex → Bytes) where
  -- WriteErrorChunk, then Abort.
  unfoldable pub fail : PgErrorMeta → Call T C → Run (Exit × Call T C)
  unfolding write_error_chunk
  fail meta = do
    write_error_chunk client serialize meta
    lift query.abort
    pure (returned status_ok)

  -- The last chunk and the end of the query, with the result that is cleared.
  unfoldable pub complete : ResultTrailer → Option PgResult → Call T C → Run (Exit × Call T C)
  unfolding write_result_chunk encode_result_trailer
  complete last held = do
    accepted ← write_result_chunk client trailer (encode_result_trailer serialize last) []
    if accepted
        then (do clear query held; lift query.close; pure (returned status_ok))
        else (do lift query.abort; pure (returned (cancelled (codes "client cancelled stream"))))

module _ {T C B : Type 0} (query : Query T) (client : Client C) (serialize : Flex → Bytes) where
  -- Behind SendBatchChunk, with what it returned.
  abbrev pub sent_batch :
      (Exit → B)
      → (Loop → Call T C → Run (B × Call T C))
      → Loop
      → Bool × Bool
      → Call T C
      → Run (B × Call T C)
  sent_batch leave next l (true, sent) = next (record l { batch_sent = sent })
  sent_batch leave next l (false, sent) = do exit ← refused query client; pure (leave exit)

  -- Behind EncodeRawPgBatch of `rows` rows.
  abbrev pub encoded :
      (Exit → B)
      → (Loop → Call T C → Run (B × Call T C))
      → ℕ
      → Loop
      → Result Bytes
      → Call T C
      → Run (B × Call T C)
  encoded leave next rows l (throw what) = pure (leave (throws what l))
  encoded leave next rows l (ok payload) = do
    answer ← send_batch_chunk client serialize l.schema_meta l.batch_sent payload
    sent_batch leave next (record l { total_rows = l.total_rows + rows }) answer
