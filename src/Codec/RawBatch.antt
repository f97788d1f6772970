-- ===== src/Codec/RawBatch.antt =====
-- src/codec/raw_batch_encoder.cpp: RPGB v1 batches.
pub mod Decode
pub mod Frame
pub mod Rows
pub mod RoundTrip
use mtdd_server.Base.{
  ℕ, zero, suc, ◌+◌, ◌-◌, ◌/◌, ◌%◌, ◌^◌, Bytes, codes, Bool, true, false, ◌||◌, Option, none, some,
  List, [], ◌∷◌, ◌++◌, ltb, if◌then◌else◌, ◌≡◌, refl, take, length,
}
use mtdd_server.Base.Int.{ℤ, pos, negsuc, ltb_ℤ}
use mtdd_server.Base.Results.{Result, ok, throw, throw_if, ◌>>=◌, ◌>>◌}
use mtdd_server.Pg.Libpq.{PgResult}

-- kRawPgBatchMagic, kRawPgBatchVersion
abbrev pub raw_pg_batch_magic : ℕ
raw_pg_batch_magic = 0x42504752

abbrev pub raw_pg_batch_version : ℕ
raw_pg_batch_version = 1

-- AppendU32: the four bytes of a uint32_t, least significant first.
unfoldable pub append_u32 : Bytes → ℕ → Bytes
append_u32 out value =
    out
    ++ value % 2 ^ 8 ∷ value / 2 ^ 8 % 2 ^ 8 ∷ value / 2 ^ 16 % 2 ^ 8 ∷ value / 2 ^ 24 % 2 ^ 8 ∷ []

-- AppendBytes: nothing from a null pointer.
unfoldable pub append_bytes : Bytes → Option Bytes → ℕ → Bytes
append_bytes out none length = out
append_bytes out (some bytes) length = out ++ take length bytes

-- The body of the inner loop behind the test for NULL.
unfoldable pub append_value : Bytes → Option Bytes → ℤ → Result Bytes
unfolding append_u32 append_bytes
append_value out value (negsuc n) = throw (codes "EncodeRawPgBatch negative cell length")
append_value out value (pos n) = ok (append_bytes (append_u32 (out ++ 0 ∷ []) n) value n)

-- One cell.
unfoldable pub append_cell : PgResult → Bytes → ℕ → ℕ → Result Bytes
unfolding append_value
append_cell result out row col =
    if result.is_null row col
    then ok (out ++ 1 ∷ [])
    else append_value out (result.value row col) (result.value_length row col)

-- The inner loop: `rows` rows from `row` on.
unfoldable pub append_rows : PgResult → Bytes → ℕ → ℕ → ℕ → Result Bytes
append_rows result out zero row col = ok out
append_rows result out (suc rows) row col = do
  out' ← append_cell result out row col
  append_rows result out' rows (suc row) col

-- The outer loop: `cols` columns from `col` on.
unfoldable pub append_columns : PgResult → Bytes → ℕ → ℕ → ℕ → ℕ → Result Bytes
append_columns result out zero col row_begin rows = ok out
append_columns result out (suc cols) col row_begin rows = do
  out' ← append_rows result out rows row_begin col
  append_columns result out' cols (suc col) row_begin rows

-- The header and the cells of a range of rows that is in order.
unfoldable pub encode_rows : PgResult → ℕ → ℕ → Result Bytes
encode_rows result row_begin num_rows =
    let header =
      append_u32
        (append_u32 (append_u32 (append_u32 [] raw_pg_batch_magic) raw_pg_batch_version) num_rows)
        result.num_fields in
    append_columns result header result.num_fields 0 row_begin num_rows

unfoldable pub encode_raw_pg_batch : Option PgResult → ℤ → ℤ → Result Bytes
encode_raw_pg_batch none row_begin row_end = throw (codes "EncodeRawPgBatch result is null")
encode_raw_pg_batch (some result) (pos row_begin) (pos row_end) =
    if ltb row_end row_begin
    then throw (codes "EncodeRawPgBatch invalid row range")
    else encode_rows result row_begin (row_end - row_begin)
encode_raw_pg_batch (some result) _ _ = throw (codes "EncodeRawPgBatch invalid row range")
