-- ===== src/Shard/AllRows.antt =====
-- The rows of all results that QueryStream (src/service/mtdd_shard_service.cpp) streams to a client
-- that takes every chunk.
use mtdd_server.Shard.Batches.{Tiles}
use mathlib.Core.List.{append_assoc}
use mtdd_server.Base.{
  ℕ, zero, suc, ◌+◌, ◌<◌, ◌==◌, Bytes, Bool, true, false, some, List, [], ◌∷◌, ◌++◌, map, length,
  is_empty, ◌≡◌, refl, ap, ◌∙◌, sym, subst, arith,
}
use mtdd_server.Pg.Libpq.{PgResult}
use mtdd_server.Codec.FlexMeta.{Flex, ResultSchema}
use mtdd_server.Codec.QueryMeta.{build_schema_meta}
use mtdd_server.Shard.Chunks.{Status, status_ok, ResultChunk, Client, Query, Call, Run}
use mtdd_server.Shard.Loop.{Loop, initial_loop}
use mtdd_server.Shard.Rounds.{round, after_round, stream_rows}
use mtdd_server.Shard.Contract.{Ends, Ends-continue, Ends-weaken}
use mtdd_server.Shard.Batches.{tiles, size, tiles-Tiles, chunks_of}
use mtdd_server.Shard.Delivery.{at_range, passed, Delivered}
use mtdd_server.Shard.Transfer.{
  Yields, AreTables, payloads, total, trailer_chunk, fetched_loop, Adds, round-Delivered,
  stream_last,
}
use mtdd_server.Shard.Split.{chunks_of-append_some, tiles-has_some, size-tiles, IsSplit}

module _ {T C : Type 0} (query : Query T) (client : Client C) (serialize : Flex → Bytes)
    (never_cancels : (c : C) → (client.is_cancelled c).0 ≡ false)
    (takes_all : (chunk : ResultChunk) (c : C) → (client.write chunk c).0 ≡ true)
    (nonempty : (tree : Flex) → is_empty (serialize tree) ≡ false) (wire : ℕ) (progress : 0 < wire)
    (payload : PgResult → ℕ → ℕ → Bytes) where
  -- What is still to be sent.
  abbrev rest_chunks : ResultSchema → Bool → ℕ → List PgResult → List ResultChunk
  rest_chunks m sent rows results =
      chunks_of serialize m sent (payloads payload wire results)
      ++ trailer_chunk serialize m (rows + total results) ∷ []

  -- A result's chunks and those behind it.
  rest_chunks-more :
      (m : ResultSchema) (sent : Bool) (rows : ℕ) (result : PgResult) (results : List PgResult)
      → (result.num_rows == 0) ≡ false
      → chunks_of serialize m sent
            (map (at_range (payload result)) (tiles (suc result.num_rows) wire result.num_rows 0))
          ++ rest_chunks m true
              (rows + size (tiles (suc result.num_rows) wire result.num_rows 0))
              results
        ≡ rest_chunks m sent rows (result ∷ results)
  unfolding payloads total
  rest_chunks-more m sent rows result results h =
      let ranges = tiles (suc result.num_rows) wire result.num_rows 0 in
      let first = chunks_of serialize m sent (map (at_range (payload result)) ranges) in
      let others = payloads payload wire results in
      let last = trailer_chunk serialize m in
      sym (
        append_assoc first (chunks_of serialize m true others)
          (last (rows + size ranges + total results) ∷ []))
      ∙ ap (λ v. v ++ last (rows + size ranges + total results) ∷ [])
          (sym (
            chunks_of-append_some serialize m (at_range (payload result)) sent ranges others
              (tiles-has_some wire result.num_rows h)))
      ∙ ap
          (λ k.
            chunks_of serialize m sent (map (at_range (payload result)) ranges ++ others)
            ++ last k ∷ [])
          (omega (arith, size-tiles wire result.num_rows progress))

  opened :
      (result : PgResult) (l : Loop)
      → (fetched_loop query client serialize never_cancels takes_all nonempty wire progress payload
          result l).schema_open
        ≡ true
  opened result l = ground arith

  abbrev Done : List PgResult → Loop → Call T C → Status → Call T C → Type 0
  Done results l c =
      Adds query client serialize never_cancels takes_all nonempty wire progress payload
        (rest_chunks l.schema_meta l.batch_sent l.total_rows results) c

  -- The chunks of a round, and those of the rounds behind it.
  then-Done :
      (result : PgResult) (results : List PgResult) (l : Loop) (c d : Call T C) (reply : Status)
      (e : Call T C)
      → (result.num_rows == 0) ≡ false
      → d.written
        ≡ c.written
          ++ chunks_of serialize l.schema_meta l.batch_sent
              (map (at_range (payload result)) (tiles (suc result.num_rows) wire result.num_rows 0))
      → Adds query client serialize never_cancels takes_all nonempty wire progress payload
          (rest_chunks l.schema_meta true
            (l.total_rows + size (tiles (suc result.num_rows) wire result.num_rows 0))
            results)
          d
          reply
          e
      → Done (result ∷ results) l c reply e
  then-Done result results l c d reply e h w a = (
    a.0,
    a.1
        ∙ ap
            (λ v.
              v
              ++ rest_chunks l.schema_meta true
                  (l.total_rows + size (tiles (suc result.num_rows) wire result.num_rows 0))
                  results)
            w
        ∙ append_assoc c.written _ _
        ∙ ap (λ v. c.written ++ v)
            (rest_chunks-more l.schema_meta l.batch_sent l.total_rows result results h),
  )

  abbrev next_loop : PgResult → Loop → Loop
  next_loop result l =
      fetched_loop query client serialize never_cancels takes_all nonempty wire progress payload
        result l

  abbrev stream : ℕ → Loop → Call T C → Run (Status × Call T C)
  stream = stream_rows query client serialize wire

  more-Done :
      (result : PgResult) (results : List PgResult) (fuel : ℕ) (l : Loop) (c : Call T C)
      → ((l' : Loop) (d : Call T C)
          → Yields query results d.query
          → l'.schema_open ≡ true
          → l'.batch_sent ≡ true
          → Ends (Done results l' d) (stream fuel l' d))
      → Yields query (result ∷ results) c.query
      → AreTables payload (result ∷ results)
      → Ends (Done (result ∷ results) (next_loop result l) c) (stream (suc fuel) l c)
  unfolding stream_rows
  more-Done result results fuel l c ih y t =
      let fl = next_loop result l in
      let ranges = tiles (suc result.num_rows) wire result.num_rows 0 in
      let l' = passed fl ranges in
      let Post = Done (result ∷ results) fl c in
      let after = after_round query client serialize wire (stream fuel) in
      let sent : l'.batch_sent ≡ true = ground (arith, tiles-has_some wire result.num_rows t.0.2) in
      Ends-continue Post
        (Delivered query client serialize wire never_cancels takes_all fl (payload result) ranges
          (record c { query = query.clear l.last_result y.0 }))
        (round query client serialize wire l c) after
        (round-Delivered query client serialize never_cancels takes_all nonempty wire progress
          payload result results l c y t)
        (λ flow d h.
          subst (λ x. Ends Post (after x d)) (sym h.0)
            (Ends-weaken Post (Done results l' d) (stream fuel l' d)
              (ih l' d (subst (Yields query results) (sym h.1) (y.2 l.last_result))
                (opened result l) sent)
              (λ reply e k. then-Done result results fl c d reply e t.0.2 h.2 (
                subst
                  (λ b.
                    Adds query client serialize never_cancels takes_all nonempty wire progress
                      payload (rest_chunks fl.schema_meta b l'.total_rows results) d reply e)
                  sent k))))

  same_loop :
      (result : PgResult) (l : Loop)
      → l.schema_open ≡ true
      → next_loop result l ≡ record l { last_result = some result }
  same_loop result l o = rw o refl

  none-Done :
      (l : Loop)
      → trailer_chunk serialize l.schema_meta l.total_rows ∷ []
        ≡ rest_chunks l.schema_meta l.batch_sent l.total_rows []
  unfolding payloads total chunks_of
  none-Done l = ap (λ k. trailer_chunk serialize l.schema_meta k ∷ []) (omega arith)

  stream-Done :
      (results : List PgResult) (fuel : ℕ) (l : Loop) (c : Call T C)
      → length results < fuel
      → Yields query results c.query
      → AreTables payload results
      → l.schema_open ≡ true
      → l.batch_sent ≡ true
      → Ends (Done results l c) (stream fuel l c)
  stream-Done results zero l c m y t o b = absurd (omega arith)
  stream-Done [] (suc fuel) l c m y t o b =
      subst
        (λ chunks.
          Ends
            (Adds query client serialize never_cancels takes_all nonempty wire progress payload
              chunks c)
            (stream (suc fuel) l c))
        (none-Done l)
        (stream_last query client serialize never_cancels takes_all nonempty wire progress payload
          fuel l c y o b)
  stream-Done (result ∷ results) (suc fuel) l c m y t o b =
      subst (λ k. Ends (Done (result ∷ results) k c) (stream (suc fuel) l c)) (same_loop result l o)
        (more-Done result results fuel l c
          (λ l' d y' o' b'. stream-Done results fuel l' d (omega arith) y' t.1 o' b') y t)

  payloads-IsSplit :
      (results : List PgResult) → IsSplit wire payload results (payloads payload wire results)
  unfolding payloads
  payloads-IsSplit [] = refl
  payloads-IsSplit (result ∷ results) = (
    tiles (suc result.num_rows) wire result.num_rows 0,
    payloads payload wire results,
    subst (λ k. Tiles wire result.num_rows k (tiles (suc result.num_rows) wire result.num_rows 0))
        (ground arith)
        (tiles-Tiles (suc result.num_rows) wire result.num_rows 0 progress (omega arith)
          (omega arith)),
    refl,
    payloads-IsSplit results,
  )

  -- For a client that never cancels and takes every chunk, a batch size that is not 0, and a query
  -- that brings one or more results, each of them with columns and rows that the encoder takes,
  -- then no further result and no error, and whose Close comes back: with more fuel than one more
  -- than the number of results, QueryStream's loop ends with the status OK, and the chunks written
  -- are these and no others, in this order. First come the encodings of ranges that tile the rows
  -- of each result, one result behind the other, no range empty and each of the batch size but for
  -- a result's last; the first of them carries the schema of the first result. Last comes a
  -- trailer with the number of all rows.
  pub stream_rows-all :
      (result : PgResult) (results : List PgResult) (fuel : ℕ) (t : T) (peer : C)
      → length results + 1 < fuel
      → Yields query (result ∷ results) t
      → AreTables payload (result ∷ results)
      → Ends
          (λ status c.
            (status ≡ status_ok)
            × ((sent : List Bytes) × IsSplit wire payload (result ∷ results) sent
                × (c.written
                    ≡ chunks_of serialize (build_schema_meta result) false sent
                      ++ trailer_chunk serialize
                          (build_schema_meta result)
                          (total (result ∷ results))
                        ∷ [])))
          (stream_rows query client serialize wire fuel initial_loop
            (record { query = t; client = peer; written = [] }))
  stream_rows-all result results zero t peer m y a = absurd (omega arith)
  stream_rows-all result results (suc fuel) t peer m y a =
      let c : Call T C = record { query = t; client = peer; written = [] } in
      let all = result ∷ results in
      let rows : 0 + total all ≡ total all = omega arith in
      Ends-weaken _ (Done all (next_loop result initial_loop) c) (stream (suc fuel) initial_loop c)
        (more-Done result results fuel initial_loop c
          (λ l' d y' o' b'. stream-Done results fuel l' d (omega arith) y' a.1 o' b') y a)
        (λ reply d h. (
          h.0,
          (
            payloads payload wire all,
            payloads-IsSplit all,
            h.1
                ∙ ap
                    (λ k.
                      chunks_of serialize (build_schema_meta result) false
                        (payloads payload wire all)
                      ++ trailer_chunk serialize (build_schema_meta result) k ∷ [])
                    rows,
          ),
        ))
