-- ===== src/Shard/Batches.antt =====
-- The chunks that QueryStream (src/service/mtdd_shard_service.cpp) sends of one result, to a client
-- that takes every chunk: the ranges of the rows, and the chunks that hold them.
use mtdd_server.Shard.Chunks.{returns}
use mtdd_server.Base.{
  ℕ, zero, suc, ◌+◌, ◌-◌, ◌<◌, ◌≤◌, min, ltb, Bytes, Bool, true, false, ◌||◌, List, [], ◌∷◌, ◌++◌,
  is_empty, if◌then◌else◌, Bool-cases, inl, inr, ◌⊎◌, ◌≡◌, refl, ap, arith,
}
use mtdd_server.Codec.FlexMeta.{Flex, ResultSchema, encode_result_schema}
use mtdd_server.Shard.Chunks.{
  schema, batch, ResultChunk, Client, Call, is_cancelled, write, write_result_chunk, write_batch,
  send_batch_chunk,
}
use mtdd_server.Shard.Contract.{Ends, Ends-continue}

-- The ranges from `begin` on.
unfoldable pub tiles : ℕ → ℕ → ℕ → ℕ → List (ℕ × ℕ)
tiles zero wire n begin = []
tiles (suc fuel) wire n begin =
    let rest = tiles fuel wire n (begin + wire) in
    if ltb begin n then (begin, min (begin + wire) n) ∷ rest else []

-- The ranges are one behind the other from `begin` to the end, none is empty, and each has `wire`
-- rows but the last, which has no more.
abbrev pub Tiles : ℕ → ℕ → ℕ → List (ℕ × ℕ) → Type 0
Tiles wire n begin [] = begin ≡ n
Tiles wire n begin ((first, last) ∷ ranges) =
    (first ≡ begin)
    × (begin < last)
    × ((last ≡ begin + wire) ⊎ ((last ≡ n) × (n ≤ begin + wire)))
    × Tiles wire n last ranges

pub tiles-Tiles :
    (fuel wire n begin : ℕ)
    → 0 < wire
    → 0 < fuel
    → n < begin + fuel
    → Tiles wire n (min begin n) (tiles fuel wire n begin)
unfolding tiles
tiles-Tiles zero wire n begin p f m = absurd (omega arith)
tiles-Tiles (suc fuel) wire n begin p f m = elim (Bool-cases (ltb begin n)) [
  | inl e ↦ rw e (
    ground arith,
    ground arith,
    ground arith,
    tiles-Tiles fuel wire n (begin + wire) p (ground arith) (ground arith),
  )
  | inr e ↦ rw e (ground arith)
]

-- How many rows the ranges have.
abbrev pub size : List (ℕ × ℕ) → ℕ
size [] = 0
size ((first, last) ∷ ranges) = last - first + size ranges

pub size-Tiles :
    (wire n begin : ℕ) (ranges : List (ℕ × ℕ)) → Tiles wire n begin ranges → begin + size ranges ≡ n
size-Tiles wire n begin [] t = omega (arith, t)
size-Tiles wire n begin ((first, last) ∷ ranges) t =
    omega (arith, t.0, t.1, size-Tiles wire n last ranges t.3)

-- The chunk of a batch, by whether one was sent before, and the chunks of several.
abbrev pub chunk_of : (Flex → Bytes) → ResultSchema → Bool → Bytes → ResultChunk
chunk_of serialize schema_meta true payload = record {
  kind = batch;
  flatbuffer_meta = [];
  payload = payload;
}
chunk_of serialize schema_meta false payload = record {
  kind = schema;
  flatbuffer_meta = encode_result_schema serialize schema_meta;
  payload = payload;
}

unfoldable pub chunks_of : (Flex → Bytes) → ResultSchema → Bool → List Bytes → List ResultChunk
chunks_of serialize schema_meta sent [] = []
chunks_of serialize schema_meta sent (payload ∷ payloads) =
    chunk_of serialize schema_meta sent payload ∷ chunks_of serialize schema_meta true payloads

module _ {T C : Type 0} (client : Client C) (serialize : Flex → Bytes)
    (never_cancels : (c : C) → (client.is_cancelled c).0 ≡ false)
    (takes_all : (chunk : ResultChunk) (c : C) → (client.write chunk c).0 ≡ true) where
  abbrev Takes : ResultChunk → Call T C → Bool → Call T C → Type 0
  Takes chunk c answer c' =
      (answer ≡ true) × (c'.query ≡ c.query) × (c'.written ≡ c.written ++ chunk ∷ [])

  write_batch-Takes :
      (schema_meta : ResultSchema) (sent : Bool) (payload : Bytes) (c : Call T C)
      → is_empty payload ≡ false
      → Ends
          (Takes (chunk_of serialize schema_meta sent payload) c)
          (write_batch client serialize schema_meta sent payload c)
  unfolding write_result_chunk write
  write_batch-Takes schema_meta true payload c e = rw e (takes_all _ c.client, refl, refl)
  write_batch-Takes schema_meta false payload c e = rw e (takes_all _ c.client, refl, refl)

  abbrev pub Sends : ResultChunk → Call T C → Bool × Bool → Call T C → Type 0
  Sends chunk c answer c' =
      (answer ≡ (true, true)) × (c'.query ≡ c.query) × (c'.written ≡ c.written ++ chunk ∷ [])

  pub send_batch_chunk-Sends :
      (schema_meta : ResultSchema) (sent : Bool) (payload : Bytes) (c : Call T C)
      → is_empty payload ≡ false
      → Ends
          (Sends (chunk_of serialize schema_meta sent payload) c)
          (send_batch_chunk client serialize schema_meta sent payload c)
  unfolding send_batch_chunk is_cancelled
  send_batch_chunk-Sends schema_meta sent payload c e =
      let c' = record c { client = (client.is_cancelled c.client).1 } in
      rw (e, never_cancels c.client)
        (Ends-continue (Sends (chunk_of serialize schema_meta sent payload) c)
          (Takes (chunk_of serialize schema_meta sent payload) c')
          (write_batch client serialize schema_meta sent payload c')
          (λ accepted d. returns ((accepted, accepted || sent), d))
          (write_batch-Takes schema_meta sent payload c' e)
          (λ answer d h. (ap (λ a. (a, a || sent)) h.0, h.1, h.2)))
