-- ===== src/Shard/Delivery.antt =====
-- What QueryStream (src/service/mtdd_shard_service.cpp) sends of the results of a query, to a client
-- that takes every chunk and does not cancel.
use mathlib.Core.List.{append_assoc, append-nil}
use mtdd_server.Base.{
  ℕ, zero, suc, ◌+◌, ◌-◌, ◌<◌, ◌≤◌, min, ltb, Bytes, Bool, true, false, ◌||◌, some, List, [], ◌∷◌,
  ◌++◌, map, is_empty, Bool-cases, inl, inr, ◌≡◌, refl, ap, ◌∙◌, sym, subst, arith,
}
use mtdd_server.Base.Int.{pos}
use mtdd_server.Base.Results.{ok}
use mtdd_server.Pg.Libpq.{PgResult}
use mtdd_server.Codec.FlexMeta.{Flex}
use mtdd_server.Codec.RawBatch.{encode_raw_pg_batch}
use mtdd_server.Shard.Chunks.{ResultChunk, Client, Query, Call, send_batch_chunk}
use mtdd_server.Shard.Loop.{Loop, Flow, goes_on, leaves, sent_batch}
use mtdd_server.Shard.Rounds.{send_batches}
use mtdd_server.Shard.Contract.{Ends, Ends-continue, Ends-weaken}
use mtdd_server.Shard.Batches.{tiles, size, chunk_of, chunks_of, send_batch_chunk-Sends, Sends}

abbrev pub has_some : List (ℕ × ℕ) → Bool
has_some [] = false
has_some (range ∷ ranges) = true

-- The variables behind the `for`, by the ranges sent.
abbrev pub passed : Loop → List (ℕ × ℕ) → Loop
passed l ranges = record l {
  batch_sent = l.batch_sent || has_some ranges;
  total_rows = l.total_rows + size ranges;
}

-- The payload of a range.
abbrev pub at_range : (ℕ → ℕ → Bytes) → ℕ × ℕ → Bytes
at_range payload (first, last) = payload first last

-- The encoder makes `payload` of the ranges of the result.
abbrev pub Encodes : PgResult → (ℕ → ℕ → Bytes) → Type 0
Encodes result payload =
    (first last : ℕ)
    → first ≤ last
    → last ≤ result.num_rows
    → (encode_raw_pg_batch (some result) (pos first) (pos last) ≡ ok (payload first last))
      × (is_empty (payload first last) ≡ false)

passed_none : (l : Loop) → l ≡ passed l []
passed_none l = ground arith

passed-more :
    (l : Loop) (first last : ℕ) (ranges : List (ℕ × ℕ))
    → passed (record l { batch_sent = true; total_rows = l.total_rows + (last - first) }) ranges
      ≡ passed l ((first, last) ∷ ranges)
passed-more l first last ranges = ground arith

module _ {T C : Type 0} (query : Query T) (client : Client C) (serialize : Flex → Bytes) (wire : ℕ)
    (never_cancels : (c : C) → (client.is_cancelled c).0 ≡ false)
    (takes_all : (chunk : ResultChunk) (c : C) → (client.write chunk c).0 ≡ true) where
  abbrev pub Delivered : Loop → (ℕ → ℕ → Bytes) → List (ℕ × ℕ) → Call T C → Flow → Call T C → Type 0
  Delivered l payload ranges c flow c' =
      (flow ≡ goes_on (passed l ranges))
      × (c'.query ≡ c.query)
      × (c'.written
          ≡ c.written
            ++ chunks_of serialize l.schema_meta l.batch_sent (map (at_range payload) ranges))

  -- A batch, and those behind it.
  joined :
      (l : Loop) (payload : ℕ → ℕ → Bytes) (begin last : ℕ) (ranges : List (ℕ × ℕ)) (c d : Call T C)
      (flow : Flow) (c' : Call T C)
      → d.query ≡ c.query
      → d.written
        ≡ c.written ++ chunk_of serialize l.schema_meta l.batch_sent (payload begin last) ∷ []
      → Delivered
          (record l { batch_sent = true; total_rows = l.total_rows + (last - begin) })
          payload
          ranges
          d
          flow
          c'
      → Delivered l payload ((begin, last) ∷ ranges) c flow c'
  unfolding chunks_of
  joined l payload begin last ranges c d flow c' q w g = (
    g.0 ∙ ap goes_on (passed-more l begin last ranges),
    g.1 ∙ q,
    g.2
        ∙ ap (λ v. v ++ chunks_of serialize l.schema_meta true (map (at_range payload) ranges)) w
        ∙ append_assoc c.written _ _,
  )

  pub send_batches-Delivered :
      (fuel : ℕ) (result : PgResult) (payload : ℕ → ℕ → Bytes) (l : Loop) (begin : ℕ) (c : Call T C)
      → Encodes result payload
      → 0 < wire
      → 0 < fuel
      → result.num_rows < begin + fuel
      → Ends
          (Delivered l payload (tiles fuel wire result.num_rows begin) c)
          (send_batches query client serialize wire fuel result l begin c)
  unfolding send_batches tiles chunks_of
  send_batches-Delivered zero result payload l begin c e p f m = absurd (omega arith)
  send_batches-Delivered (suc fuel) result payload l begin c e p f m =
      elim (Bool-cases (ltb begin result.num_rows)) [
        | inl lt ↦
            let last = min (begin + wire) result.num_rows in
            let ranges = tiles fuel wire result.num_rows (begin + wire) in
            let h : (encode_raw_pg_batch (some result) (pos begin) (pos last)
                  ≡ ok (payload begin last))
                × (is_empty (payload begin last) ≡ false) =
              e begin last (ground arith) (ground arith) in
            let l' = record l { batch_sent = true; total_rows = l.total_rows + (last - begin) } in
            let Post = Delivered l payload ((begin, last) ∷ ranges) c in
            let sent =
              Sends client serialize never_cancels takes_all
                (chunk_of serialize l.schema_meta l.batch_sent (payload begin last)) c in
            let next = send_batches query client serialize wire fuel result in
            rw (lt, h.0)
              (Ends-continue Post sent
                (send_batch_chunk client serialize l.schema_meta l.batch_sent (payload begin last)
                  c)
                (sent_batch query client serialize leaves (λ k. next k (begin + wire))
                  (record l { total_rows = l.total_rows + (last - begin) }))
                (send_batch_chunk-Sends client serialize never_cancels takes_all l.schema_meta
                  l.batch_sent (payload begin last) c h.1)
                (λ answer d k.
                  subst
                    (λ a. Ends Post (
                      sent_batch query client serialize leaves (λ m. next m (begin + wire))
                        (record l { total_rows = l.total_rows + (last - begin) }) a d))
                    (sym k.0)
                    (Ends-weaken Post (Delivered l' payload ranges d) (next l' (begin + wire) d)
                      (send_batches-Delivered fuel result payload l' (begin + wire) d e p
                        (ground arith) (ground arith))
                      (λ flow c' g. joined l payload begin last ranges c d flow c' k.1 k.2 g))))
        | inr lt ↦ rw lt (ap goes_on (passed_none l), refl, sym (append-nil c.written))
      ]
