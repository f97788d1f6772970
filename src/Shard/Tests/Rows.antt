-- ===== src/Shard/Tests/Rows.antt =====
-- The theorem on the rows that are delivered, at a query whose results are given.
use mtdd_server.Base.{
  ℕ, zero, suc, Bytes, false, Option, none, some, List, [], ◌∷◌, ◌++◌, ◌≡◌, refl, arith,
}
use mtdd_server.Base.Int.{pos}
use mtdd_server.Base.Results.{Result, ok, throw}
use mtdd_server.Codec.RawBatch.{
  encode_raw_pg_batch, encode_rows, append_columns, append_rows, append_cell, append_u32,
}
use mtdd_server.Codec.QueryMeta.{build_schema_meta}
use mtdd_server.Pg.Libpq.{PgResult, tuples_ok}
use mtdd_server.Pg.Stream.State.{Outcome, done}
use mtdd_server.Shard.Chunks.{status_ok, Query}
use mtdd_server.Shard.Contract.{Ends}
use mtdd_server.Shard.Loop.{initial_loop}
use mtdd_server.Shard.Rounds.{stream_rows}
use mtdd_server.Shard.Batches.{chunks_of}
use mtdd_server.Shard.Delivery.{Encodes}
use mtdd_server.Shard.Transfer.{Yields, AreTables, total, trailer_chunk}
use mtdd_server.Shard.Split.{IsSplit}
use mtdd_server.Shard.AllRows.{stream_rows-all}
use mtdd_server.Shard.Tests.{result_of, reader, bytes_of, bytes_of-nonempty}

abbrev fetched : List PgResult → Outcome (Option PgResult × List PgResult)
fetched [] = done (none, [])
fetched (result ∷ results) = done (some result, results)

abbrev or_nothing : Result Bytes → Bytes
or_nothing (ok bytes) = bytes
or_nothing (throw what) = []

-- A query whose results are given.
abbrev scripted : Query (List PgResult)
scripted = record {
  fetch = λ results. fetched results;
  close = λ results. done (tt, results);
  abort = λ results. done (tt, []);
  exec_error = λ results. [];
  clear = λ result results. results;
}

abbrev one_row : PgResult
one_row = result_of tuples_ok 1 1

abbrev payload : PgResult → ℕ → ℕ → Bytes
payload result first last = or_nothing (encode_raw_pg_batch (some result) (pos first) (pos last))

one_row-Encodes : Encodes one_row (payload one_row)
unfolding encode_raw_pg_batch encode_rows append_columns append_rows append_cell append_u32
one_row-Encodes zero zero l m = (refl, refl)
one_row-Encodes zero (suc zero) l m = (refl, refl)
one_row-Encodes (suc zero) (suc zero) l m = (refl, refl)
one_row-Encodes (suc first) zero l m = absurd (omega arith)
one_row-Encodes first (suc (suc last)) l m = absurd (omega arith)
one_row-Encodes (suc (suc first)) (suc zero) l m = absurd (omega arith)

two_tables : AreTables payload (one_row ∷ one_row ∷ [])
two_tables = ((refl, refl, refl, one_row-Encodes), ((refl, refl, refl, one_row-Encodes), tt))

two_results : Yields scripted (one_row ∷ one_row ∷ []) (one_row ∷ one_row ∷ [])
two_results =
    (one_row ∷ [], refl, λ last. ([], refl, λ last'. ([], refl, refl, λ held. ([], refl))))

stream_rows-all_example :
    Ends
      (λ status c.
        (status ≡ status_ok)
        × ((sent : List Bytes) × IsSplit 1 payload (one_row ∷ one_row ∷ []) sent
            × (c.written
                ≡ chunks_of bytes_of (build_schema_meta one_row) false sent
                  ++ trailer_chunk bytes_of
                      (build_schema_meta one_row)
                      (total (one_row ∷ one_row ∷ []))
                    ∷ [])))
      (stream_rows scripted reader bytes_of 1 5 initial_loop
        (record { query = one_row ∷ one_row ∷ []; client = 0; written = [] }))
stream_rows-all_example =
    stream_rows-all scripted reader bytes_of (λ n. refl) (λ chunk n. refl) bytes_of-nonempty 1
      (omega arith) payload one_row (one_row ∷ []) 5 (one_row ∷ one_row ∷ []) 0 (omega arith)
      two_results two_tables
