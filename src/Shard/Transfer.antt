-- ===== src/Shard/Transfer.antt =====
-- A whole query that QueryStream (src/service/mtdd_shard_service.cpp) streams to a client that takes
-- every chunk: the rows of all results, and the trailer.
use mtdd_server.Base.{
  ℕ, suc, ◌+◌, ◌<◌, ◌==◌, Bytes, codes, true, false, Option, none, some, List, [], ◌∷◌, ◌++◌, map,
  is_empty, ◌≡◌, refl, ap, ◌∙◌, sym, subst, arith,
}
use mtdd_server.Base.Int.{pos}
use mtdd_server.Base.Decimal.{to_string}
use mtdd_server.Pg.Libpq.{PgResult}
use mtdd_server.Pg.Stream.State.{done}
use mtdd_server.Codec.FlexMeta.{
  Flex, ResultSchema, ResultTrailer, trailer_tree, encode_result_trailer,
}
use mtdd_server.Shard.Chunks.{
  Status, status_ok, trailer, ResultChunk, Client, Query, Call, Run, is_cancelled, write,
  write_result_chunk,
}
use mtdd_server.Shard.Loop.{
  Loop, Exit, returned, breaks, is_expected, open_schema, complete, final_trailer,
}
use mtdd_server.Shard.Rounds.{on_result, on_fetch, round, finish, settle, after_round, stream_rows}
use mtdd_server.Shard.Contract.{Ends, Ends-continue}
use mtdd_server.Shard.Batches.{tiles}
use mtdd_server.Shard.Delivery.{at_range, Encodes, Delivered, send_batches-Delivered}

module _ {T : Type 0} (query : Query T) where
  -- Fetch brings the results one after the other, then none and no error, and Close comes back.
  abbrev pub Yields : List PgResult → T → Type 0
  Yields [] t =
      (t' : T) × (query.fetch t ≡ done (none, t'))
      × (is_empty (query.exec_error t') ≡ true)
      × ((last : Option PgResult) → (u : T) × (query.close (query.clear last t') ≡ done (tt, u)))
  Yields (result ∷ results) t =
      (t' : T) × (query.fetch t ≡ done (some result, t'))
      × ((last : Option PgResult) → Yields results (query.clear last t'))

-- Results with rows that the encoder takes.
abbrev pub AreTables : (PgResult → ℕ → ℕ → Bytes) → List PgResult → Type 0
AreTables payload [] = Unit
AreTables payload (result ∷ results) =
    ((is_expected result.status ≡ true)
      × ((result.num_fields == 0) ≡ false)
      × ((result.num_rows == 0) ≡ false)
      × Encodes result (payload result))
    × AreTables payload results

-- The payloads of the results, in order, and the number of their rows.
unfoldable pub payloads : (PgResult → ℕ → ℕ → Bytes) → ℕ → List PgResult → List Bytes
payloads payload wire [] = []
payloads payload wire (result ∷ results) =
    map (at_range (payload result)) (tiles (suc result.num_rows) wire result.num_rows 0)
    ++ payloads payload wire results

unfoldable pub total : List PgResult → ℕ
total [] = 0
total (result ∷ results) = result.num_rows + total results

abbrev pub trailer_chunk : (Flex → Bytes) → ResultSchema → ℕ → ResultChunk
trailer_chunk serialize schema_meta rows = record {
  kind = trailer;
  flatbuffer_meta = encode_result_trailer serialize (record {
    command_tag = schema_meta.command ++ (codes " " ++ to_string rows);
    row_count = pos rows;
    oid = 0;
  });
  payload = [];
}

abbrev open_trailer : Loop → ResultTrailer
open_trailer l = record {
  command_tag = l.schema_meta.command ++ (codes " " ++ to_string l.total_rows);
  row_count = pos l.total_rows;
  oid = 0;
}

module _ {T C : Type 0} (query : Query T) (client : Client C) (serialize : Flex → Bytes)
    (never_cancels : (c : C) → (client.is_cancelled c).0 ≡ false)
    (takes_all : (chunk : ResultChunk) (c : C) → (client.write chunk c).0 ≡ true)
    (nonempty : (tree : Flex) → is_empty (serialize tree) ≡ false) (wire : ℕ) (progress : 0 < wire)
    (payload : PgResult → ℕ → ℕ → Bytes) where
  abbrev pub fetched_loop : PgResult → Loop → Loop
  fetched_loop result l = open_schema result (record l { last_result = some result })

  abbrev pub ranges_of : PgResult → List (ℕ × ℕ)
  ranges_of result = tiles (suc result.num_rows) wire result.num_rows 0

  -- A round that brings a result with rows.
  pub round-Delivered :
      (result : PgResult) (results : List PgResult) (l : Loop) (c : Call T C)
      → (y : Yields query (result ∷ results) c.query) → AreTables payload (result ∷ results)
      → Ends
          (Delivered query client serialize wire never_cancels takes_all
            (fetched_loop result l)
            (payload result)
            (ranges_of result)
            (record c { query = query.clear l.last_result y.0 }))
          (round query client serialize wire l c)
  unfolding round is_cancelled on_fetch on_result
  round-Delivered result results l c y t =
      rw (never_cancels c.client, y.1, t.0.0, t.0.1, t.0.2)
        (send_batches-Delivered query client serialize wire never_cancels takes_all
          (suc result.num_rows) result (payload result) (fetched_loop result l) 0
          (record c {
            query = query.clear l.last_result y.0;
            client = (client.is_cancelled c.client).1;
          })
          t.0.3 progress (omega arith) (omega arith))

  -- The call ends with OK, and with these chunks more.
  abbrev pub Adds : List ResultChunk → Call T C → Status → Call T C → Type 0
  Adds chunks c status c' = (status ≡ status_ok) × (c'.written ≡ c.written ++ chunks)

  abbrev Returns : List ResultChunk → Call T C → Exit → Call T C → Type 0
  Returns chunks c exit c' = (exit ≡ returned status_ok) × (c'.written ≡ c.written ++ chunks)

  complete-Returns :
      (last : ResultTrailer) (held : Option PgResult) (c : Call T C) (u : T)
      → query.close (query.clear held c.query) ≡ done (tt, u)
      → Ends
          (Returns
            (record {
              kind = trailer;
              flatbuffer_meta = encode_result_trailer serialize last;
              payload = [];
            }
              ∷ [])
            c)
          (complete query client serialize last held c)
  unfolding complete write_result_chunk write encode_result_trailer
  complete-Returns last held c u e =
      rw
        (
          nonempty (trailer_tree last),
          takes_all
              (record {
                kind = trailer;
                flatbuffer_meta = serialize (trailer_tree last);
                payload = [];
              })
              c.client,
          e,
        )
        (refl, refl)

  finish-Returns :
      (l : Loop) (c : Call T C) (u : T)
      → l.schema_open ≡ true
      → l.batch_sent ≡ true
      → query.close (query.clear l.last_result c.query) ≡ done (tt, u)
      → Ends
          (Returns (trailer_chunk serialize l.schema_meta l.total_rows ∷ []) c)
          (finish query client serialize l c)
  unfolding finish final_trailer
  finish-Returns l c u o b e = rw (o, b) (complete-Returns (open_trailer l) l.last_result c u e)

  -- The round that finds no result.
  round_last :
      (l : Loop) (c : Call T C)
      → (y : Yields query [] c.query)
      → Ends
          (λ flow c'. (flow ≡ breaks l) × (c'.query ≡ y.0) × (c'.written ≡ c.written))
          (round query client serialize wire l c)
  unfolding round is_cancelled on_fetch
  round_last l c y = rw (never_cancels c.client, y.1, y.2) (refl, refl, refl)

  after_last :
      (l : Loop) (c d : Call T C) (rest : Loop → Call T C → Run (Status × Call T C)) (u : T)
      → l.schema_open ≡ true
      → l.batch_sent ≡ true
      → query.close (query.clear l.last_result d.query) ≡ done (tt, u)
      → d.written ≡ c.written
      → Ends
          (Adds (trailer_chunk serialize l.schema_meta l.total_rows ∷ []) c)
          (after_round query client serialize wire rest (breaks l) d)
  unfolding settle
  after_last l c d rest u o b e w =
      Ends-continue (Adds (trailer_chunk serialize l.schema_meta l.total_rows ∷ []) c)
        (Returns (trailer_chunk serialize l.schema_meta l.total_rows ∷ []) d)
        (finish query client serialize l d) (settle query client serialize)
        (finish-Returns l d u o b e)
        (λ exit c' h.
          subst
            (λ x.
              Ends (Adds (trailer_chunk serialize l.schema_meta l.total_rows ∷ []) c)
                (settle query client serialize x c'))
            (sym h.0)
            (refl, h.1 ∙ ap (λ v. v ++ trailer_chunk serialize l.schema_meta l.total_rows ∷ []) w))

  pub stream_last :
      (fuel : ℕ) (l : Loop) (c : Call T C)
      → Yields query [] c.query
      → l.schema_open ≡ true
      → l.batch_sent ≡ true
      → Ends
          (Adds (trailer_chunk serialize l.schema_meta l.total_rows ∷ []) c)
          (stream_rows query client serialize wire (suc fuel) l c)
  unfolding stream_rows
  stream_last fuel l c y o b =
      let rest = stream_rows query client serialize wire fuel in
      let Post = Adds (trailer_chunk serialize l.schema_meta l.total_rows ∷ []) c in
      Ends-continue Post
        (λ flow c'. (flow ≡ breaks l) × (c'.query ≡ y.0) × (c'.written ≡ c.written))
        (round query client serialize wire l c) (after_round query client serialize wire rest)
        (round_last l c y)
        (λ flow d h.
          subst (λ x. Ends Post (after_round query client serialize wire rest x d)) (sym h.0)
            (after_last l c d rest (y.3 l.last_result).0 o b
              (ap (λ q. query.close (query.clear l.last_result q)) h.1 ∙ (y.3 l.last_result).1)
              h.2))
