-- ===== src/Shard/Rounds.antt =====
-- The rounds of QueryStream (src/service/mtdd_shard_service.cpp), on fuel: one result per round,
-- the batches of its rows, and what stands behind the loop.
use mtdd_server.Base.{
  ℕ, zero, suc, ◌+◌, ◌-◌, Bytes, codes, not, ◌&&◌, Option, none, some, if◌then◌else◌, is_empty, ltb,
  ◌==◌, min,
}
use mtdd_server.Base.Int.{pos}
use mtdd_server.Pg.Libpq.{PgResult}
use mtdd_server.Pg.Executor.{extract_pg_error}
use mtdd_server.Codec.FlexMeta.{Flex}
use mtdd_server.Codec.QueryMeta.{build_command_trailer}
use mtdd_server.Codec.RawBatch.{encode_raw_pg_batch}
use mtdd_server.Shard.Loop.{
  Loop, Exit, returned, throws, Flow, goes_on, breaks, leaves, message_meta, is_expected,
  open_schema, final_trailer, clear, refused, fail, complete, encoded,
}
use mtdd_server.Shard.Chunks.{
  Status, status_ok, cancelled, Client, Query, Call, Run, out_of_fuel, ◌>>=◌, ◌>>◌, pure, lift,
  is_cancelled, write_error_chunk,
}

module _ {T C : Type 0} (query : Query T) (client : Client C) (serialize : Flex → Bytes) where
  abbrev pub the_end : Loop → Call T C → Run (Exit × Call T C)
  the_end l = complete query client serialize (final_trailer l) l.last_result

  -- Behind the loop.
  unfoldable pub finish : Loop → Call T C → Run (Exit × Call T C)
  unfolding complete refused
  finish l =
      if l.schema_open && not l.batch_sent
      then encoded query client serialize (λ exit. exit) the_end 0 l
          (encode_raw_pg_batch l.last_result (pos 0) (pos 0))
      else the_end l

  -- The handler, and the status.
  unfoldable pub settle : Exit → Call T C → Run (Status × Call T C)
  unfolding fail write_error_chunk
  settle (returned reply) = pure reply
  settle (throws what l) = do
    clear query l.last_result
    lift query.abort
    write_error_chunk client serialize (message_meta what)
    pure status_ok

module _ {T C : Type 0} (query : Query T) (client : Client C) (serialize : Flex → Bytes)
    (wire_batch_rows : ℕ) where
  -- The `for` from `row_begin` on.
  unfoldable pub send_batches : ℕ → PgResult → Loop → ℕ → Call T C → Run (Flow × Call T C)
  unfolding refused
  send_batches zero result l row_begin c = out_of_fuel
  send_batches (suc fuel) result l row_begin c =
      let row_end = min (row_begin + wire_batch_rows) result.num_rows in
      let rest = λ (l' : Loop). send_batches fuel result l' (row_begin + wire_batch_rows) in
      if ltb row_begin result.num_rows
      then encoded query client serialize leaves rest (row_end - row_begin) l
          (encode_raw_pg_batch (some result) (pos row_begin) (pos row_end)) c
      else pure (goes_on l) c

  -- Behind the tests of the number of columns.
  abbrev pub on_rows : PgResult → Loop → Call T C → Run (Flow × Call T C)
  on_rows result l =
      if result.num_rows == 0
      then pure (goes_on l)
      else send_batches (suc result.num_rows) result l 0

  -- Behind `last_result = fetch`.
  unfoldable pub on_result : PgResult → Loop → Call T C → Run (Flow × Call T C)
  unfolding fail complete send_batches
  on_result result l =
      if not (is_expected result.status)
      then (do
        exit ← fail query client serialize (extract_pg_error (some result))
        pure (leaves exit))
      else if result.num_fields == 0
      then (do
        exit ← complete query client serialize (build_command_trailer result) (some result)
        pure (leaves exit))
      else if result.num_rows == 0 && l.schema_open
      then pure (breaks l)
      else on_rows result (open_schema result l)

  -- Behind Fetch.
  unfoldable pub on_fetch : Option PgResult → Loop → Call T C → Run (Flow × Call T C)
  unfolding fail on_result
  on_fetch none l c =
      (if is_empty (query.exec_error c.query) then pure (breaks l) else (do
        exit ← fail query client serialize (message_meta (query.exec_error c.query))
        pure (leaves exit)))
        c
  on_fetch (some result) l c =
      (do clear query l.last_result; on_result result (record l { last_result = some result })) c

  unfoldable pub round : Loop → Call T C → Run (Flow × Call T C)
  unfolding is_cancelled on_fetch
  round l = do
    stop ← is_cancelled client
    if stop
        then (do lift query.abort; pure (leaves (returned (cancelled (codes "cancelled")))))
        else (do fetched ← lift query.fetch; on_fetch fetched l)

  abbrev pub after_round :
      (Loop → Call T C → Run (Status × Call T C)) → Flow → Call T C → Run (Status × Call T C)
  after_round rest (goes_on l) = rest l
  after_round rest (breaks l) = do
    exit ← finish query client serialize l
    settle query client serialize exit
  after_round rest (leaves exit) = settle query client serialize exit

  unfoldable pub stream_rows : ℕ → Loop → Call T C → Run (Status × Call T C)
  unfolding round finish settle
  stream_rows zero l c = out_of_fuel
  stream_rows (suc fuel) l c = (do flow ← round l; after_round (stream_rows fuel) flow) c
