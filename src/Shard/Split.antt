-- ===== src/Shard/Split.antt =====
-- How the chunks that QueryStream (src/service/mtdd_shard_service.cpp) writes divide the rows.
use mtdd_server.Shard.Batches.{chunk_of}
use mtdd_server.Shard.Batches.{Tiles}
use mtdd_server.Base.{
  ℕ, suc, ◌<◌, ◌==◌, Bytes, Bool, true, false, List, [], ◌∷◌, ◌++◌, map, ◌≡◌, refl, ap, subst,
  arith,
}
use mtdd_server.Pg.Libpq.{PgResult}
use mtdd_server.Codec.FlexMeta.{Flex, ResultSchema}
use mtdd_server.Shard.Batches.{tiles, size, size-Tiles, tiles-Tiles, chunks_of}
use mtdd_server.Shard.Delivery.{at_range}
use mtdd_server.Shard.Delivery.{has_some}

module _ (serialize : Flex → Bytes) (m : ResultSchema) where
  chunks_of-append :
      (xs ys : List Bytes)
      → chunks_of serialize m true (xs ++ ys)
        ≡ chunks_of serialize m true xs ++ chunks_of serialize m true ys
  unfolding chunks_of
  chunks_of-append [] ys = refl
  chunks_of-append (x ∷ xs) ys = ap (λ l. chunk_of serialize m true x ∷ l) (chunks_of-append xs ys)

  pub chunks_of-append_some :
      (f : ℕ × ℕ → Bytes) (sent : Bool) (ranges : List (ℕ × ℕ)) (ys : List Bytes)
      → has_some ranges ≡ true
      → chunks_of serialize m sent (map f ranges ++ ys)
        ≡ chunks_of serialize m sent (map f ranges) ++ chunks_of serialize m true ys
  unfolding chunks_of
  chunks_of-append_some f sent [] ys h = absurd cc
  chunks_of-append_some f sent (r ∷ ranges) ys h =
      ap (λ l. chunk_of serialize m sent (f r) ∷ l) (chunks_of-append (map f ranges) ys)

-- The payloads are those of ranges that tile the rows of each result, one result behind the other.
abbrev pub IsSplit : ℕ → (PgResult → ℕ → ℕ → Bytes) → List PgResult → List Bytes → Type 0
IsSplit wire payload [] sent = sent ≡ []
IsSplit wire payload (result ∷ results) sent =
    (ranges : List (ℕ × ℕ)) × (rest : List Bytes) × Tiles wire result.num_rows 0 ranges
    × (sent ≡ map (at_range (payload result)) ranges ++ rest)
    × IsSplit wire payload results rest

pub tiles-has_some : (wire n : ℕ) → (n == 0) ≡ false → has_some (tiles (suc n) wire n 0) ≡ true
unfolding tiles
tiles-has_some wire n h = ground arith

pub size-tiles : (wire n : ℕ) → 0 < wire → size (tiles (suc n) wire n 0) ≡ n
size-tiles wire n p =
    let h = size-Tiles wire n 0 (tiles (suc n) wire n 0) (
      subst (λ k. Tiles wire n k (tiles (suc n) wire n 0)) (ground arith)
        (tiles-Tiles (suc n) wire n 0 p (omega arith) (omega arith))) in
    omega (arith, h)
