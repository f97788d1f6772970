-- ===== src/Shard/Chunks.antt =====
-- What QueryStream of src/service/mtdd_shard_service.cpp works with: the chunks, the client, who may
-- cancel the call and refuse a chunk, the query that is streamed, and the functions that write a
-- chunk. The query is an interface, which StreamingQuery implements.
use mtdd_server.Base.{
  Bytes, codes, Bool, true, false, ◌&&◌, ◌||◌, Option, List, [], ◌∷◌, ◌++◌, if◌then◌else◌, is_empty,
}
use mtdd_server.Pg.Libpq.{PgResult}
use mtdd_server.Pg.Stream.State.{Outcome, done, stuck, Stuck}
use mtdd_server.Pg.Executor.{PgErrorMeta}
use mtdd_server.Codec.FlexMeta.{
  Flex, ResultSchema, FlexError, encode_result_schema, encode_pg_error,
}

-- grpc::Status
pub data Status : Type 0 where
  status_ok : Status
  invalid_argument failed_precondition cancelled : Bytes → Status

-- mtdd::ChunkKind, less CHUNK_KIND_UNSPECIFIED, which the server never sends.
pub data ChunkKind : Type 0 where
  schema batch trailer error : ChunkKind

-- mtdd::ResultChunk
pub record ResultChunk : Type 0 where
  pub kind : ChunkKind
  pub flatbuffer_meta : Bytes
  pub payload : Bytes

-- grpc::ServerContext::IsCancelled and grpc::ServerWriter::Write, on whatever state the client has.
pub record Client (C : Type 0) : Type 0 where
  pub is_cancelled : C → Bool × C
  pub write : ResultChunk → C → Bool × C

-- The query that was opened, its error string, and PQclear of one of its results.
pub record Query (T : Type 0) : Type 0 where
  pub fetch : T → Outcome (Option PgResult × T)
  pub close : T → Outcome (Unit {0} × T)
  pub abort : T → Outcome (Unit {0} × T)
  pub exec_error : T → Bytes
  pub clear : Option PgResult → T → T

-- A call of QueryStream: the query, the client, and the chunks that were written so far, accepted
-- or not.
pub record Call (T C : Type 0) : Type 0 where
  pub query : T
  pub client : C
  pub written : List ResultChunk

-- How a run ends; the loop that asks for results runs on fuel.
pub data Run {ℓ} (A : Type ℓ) : Type ℓ where
  returns : A → Run A
  blocked : Stuck → Run A
  out_of_fuel : Run A

module _ {T C A B : Type 0} where
  infixl 5 ◌>>=◌ ◌>>◌
  abbrev pub continue :
      Run (A × Call T C) → (A → Call T C → Run (B × Call T C)) → Run (B × Call T C)
  continue (returns (a, c)) f = f a c
  continue (blocked w) f = blocked w
  continue out_of_fuel f = out_of_fuel

  abbrev pub ◌>>=◌ :
      (Call T C → Run (A × Call T C))
      → (A → Call T C → Run (B × Call T C))
      → Call T C
      → Run (B × Call T C)
  ◌>>=◌ m f c = continue (m c) f

  abbrev pub ◌>>◌ :
      (Call T C → Run (A × Call T C))
      → (Call T C → Run (B × Call T C))
      → Call T C
      → Run (B × Call T C)
  m >> n = m >>= λ _. n

module _ {T C A : Type 0} where
  abbrev pub pure : A → Call T C → Run (A × Call T C)
  pure a c = returns (a, c)

  -- A member function of the query.
  abbrev pub lifted : Call T C → Outcome (A × T) → Run (A × Call T C)
  lifted c (done (a, t)) = returns (a, record c { query = t })
  lifted c (stuck w) = blocked w

  abbrev pub lift : (T → Outcome (A × T)) → Call T C → Run (A × Call T C)
  lift f c = lifted c (f c.query)

module _ {T C : Type 0} (client : Client C) where
  unfoldable pub is_cancelled : Call T C → Run (Bool × Call T C)
  is_cancelled c =
      let (answer, client') = client.is_cancelled c.client in
      returns (answer, record c { client = client' })

  unfoldable pub write : ResultChunk → Call T C → Run (Bool × Call T C)
  write chunk c =
      let (answer, client') = client.write chunk c.client in
      returns (answer, record c { client = client'; written = c.written ++ chunk ∷ [] })

  unfoldable pub write_result_chunk : ChunkKind → Bytes → Bytes → Call T C → Run (Bool × Call T C)
  unfolding write
  write_result_chunk kind flatbuffer_meta payload =
      if is_empty payload && is_empty flatbuffer_meta
      then pure true
      else write (record { kind = kind; flatbuffer_meta = flatbuffer_meta; payload = payload })

-- The PgError that WriteErrorChunk makes of the error's fields.
abbrev pub flex_error : PgErrorMeta → FlexError
flex_error meta = record {
  sqlstate = meta.meta_sqlstate;
  severity = if is_empty meta.meta_severity then codes "ERROR" else meta.meta_severity;
  message = meta.meta_message;
  detail = meta.meta_detail;
  position = meta.meta_position;
}

module _ {T C : Type 0} (client : Client C) (serialize : Flex → Bytes) where
  -- The kind and the metadata of a batch, by `*batch_sent`.
  abbrev pub write_batch : ResultSchema → Bool → Bytes → Call T C → Run (Bool × Call T C)
  write_batch schema_meta true payload = write_result_chunk client batch [] payload
  write_batch schema_meta false payload =
      write_result_chunk client schema (encode_result_schema serialize schema_meta) payload

  -- Returns the result, and `*batch_sent` afterwards.
  unfoldable pub send_batch_chunk :
      ResultSchema → Bool → Bytes → Call T C → Run ((Bool × Bool) × Call T C)
  unfolding is_cancelled write_result_chunk encode_result_schema
  send_batch_chunk schema_meta batch_sent payload =
      if is_empty payload then pure (true, batch_sent) else (do
        stop ← is_cancelled client
        if stop then pure (false, batch_sent) else (do
          accepted ← write_batch schema_meta batch_sent payload
          pure (accepted, accepted || batch_sent)))

  unfoldable pub write_error_chunk : PgErrorMeta → Call T C → Run (Bool × Call T C)
  unfolding write encode_pg_error
  write_error_chunk meta = write client (record {
    kind = error;
    flatbuffer_meta = encode_pg_error serialize (flex_error meta);
    payload = [];
  })
