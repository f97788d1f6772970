-- ===== src/Shard/Writes.antt =====
-- The steps of QueryStream (src/service/mtdd_shard_service.cpp) that write chunks and that end the
-- query: where the reader stands afterwards, and that the query is released.
use mtdd_server.Base.{Bool-cases}
use mtdd_server.Base.{
  Bytes, Bool, true, false, ◌&&◌, ◌||◌, Option, none, some, [], if◌then◌else◌, is_empty, Bool-cases,
  inl, inr, ◌≡◌, ◌≢◌, refl, ap, ◌∙◌, arith,
}
use mtdd_server.Codec.FlexMeta.{Flex, ResultSchema, encode_result_schema}
use mtdd_server.Shard.Chunks.{
  ChunkKind, Client, Call, ◌>>=◌, pure, is_cancelled, write, write_result_chunk, write_batch,
  send_batch_chunk, schema, batch,
}
use mtdd_server.Shard.Contract.{
  Phase, before_schema, in_rows, advance_option, phase_of, phase_of-append, Ends, Ends-continue,
}

-- Where the reader stands inside the loop, by `batch_sent`.
abbrev pub expected : Bool → Phase
expected true = in_rows
expected false = before_schema

module _ {T C : Type 0} where
  abbrev pub Follows : Bool → Call T C → Type 0
  Follows sent c = phase_of c.written ≡ some (expected sent)

  -- Behind SendBatchChunk.
  abbrev pub Sent : Call T C → Bool × Bool → Call T C → Type 0
  Sent c (true, sent) c' = (c'.query ≡ c.query) × Follows sent c'
  Sent c (false, sent) c' = (c'.query ≡ c.query) × (phase_of c'.written ≢ none)

module _ {T C : Type 0} (client : Client C) where
  -- A chunk that is not empty is written.
  pub write_result_chunk-Ends :
      (kind : ChunkKind) (meta payload : Bytes) (phase : Option Phase) (c : Call T C)
      → is_empty payload && is_empty meta ≡ false
      → phase_of c.written ≡ phase
      → Ends
          (λ _ c'. (c'.query ≡ c.query) × (phase_of c'.written ≡ advance_option phase kind))
          (write_result_chunk client kind meta payload c)
  unfolding write_result_chunk write
  write_result_chunk-Ends kind meta payload phase c h p =
      rw h (refl, phase_of-append c.written _ ∙ ap (λ q. advance_option q kind) p)

module _ {T C : Type 0} (client : Client C) (serialize : Flex → Bytes) where
  write_batch-Ends :
      (schema_meta : ResultSchema) (sent : Bool) (payload : Bytes) (c : Call T C)
      → is_empty payload ≡ false
      → Follows sent c
      → Ends
          (λ _ c'. (c'.query ≡ c.query) × Follows true c')
          (write_batch client serialize schema_meta sent payload c)
  write_batch-Ends schema_meta true payload c h f =
      write_result_chunk-Ends client batch [] payload (some in_rows) c (ground arith) f
  write_batch-Ends schema_meta false payload c h f =
      write_result_chunk-Ends client schema (encode_result_schema serialize schema_meta) payload
        (some before_schema) c (ground arith) f

  -- What SendBatchChunk makes of the answer to Write.
  answered :
      (sent answer : Bool) (c c' : Call T C)
      → c'.query ≡ c.query
      → Follows true c'
      → Sent c (answer, answer || sent) c'
  answered sent true c c' q f = (q, f)
  answered sent false c c' q f = (q, λ e. cc)

  pub not_none : (sent : Bool) (c : Call T C) → Follows sent c → phase_of c.written ≢ none
  not_none sent c f e = cc

  stopped :
      (schema_meta : ResultSchema) (sent stop : Bool) (payload : Bytes) (c : Call T C)
      → is_empty payload ≡ false
      → Follows sent c
      → Ends (Sent c) (
          (if stop then pure (false, sent) else (do
            accepted ← write_batch client serialize schema_meta sent payload
            pure (accepted, accepted || sent)))
            c)
  stopped schema_meta sent true payload c h f = (refl, not_none sent c f)
  stopped schema_meta sent false payload c h f =
      Ends-continue (Sent c) (λ _ c'. (c'.query ≡ c.query) × Follows true c')
        (write_batch client serialize schema_meta sent payload c)
        (λ accepted c'. pure (accepted, accepted || sent) c')
        (write_batch-Ends schema_meta sent payload c h f)
        (λ answer c' k. answered sent answer c c' k.0 k.1)

  pub send_batch_chunk-Ends :
      (schema_meta : ResultSchema) (sent : Bool) (payload : Bytes) (c : Call T C)
      → Follows sent c
      → Ends (Sent c) (send_batch_chunk client serialize schema_meta sent payload c)
  unfolding send_batch_chunk is_cancelled
  send_batch_chunk-Ends schema_meta sent payload c f = elim (Bool-cases (is_empty payload)) [
    | inl e ↦ rw e (refl, f)
    | inr e ↦ rw e (
        stopped schema_meta sent (client.is_cancelled c.client).0 payload
          (record c { client = (client.is_cancelled c.client).1 }) e f)
  ]
