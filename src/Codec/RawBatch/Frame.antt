-- ===== src/Codec/RawBatch/Frame.antt =====
-- The bytes of a batch (src/codec/raw_batch_encoder.cpp), part by part, and how its header and its
-- cells are read.
use mtdd_server.Base.{
  ℕ, zero, suc, ◌+◌, ◌*◌, ◌/◌, ◌%◌, ◌^◌, ◌<◌, Bytes, codes, false, Option, none, some, List, [],
  ◌∷◌, ◌++◌, if◌then◌else◌, take, length, length-append, take_of-append, drop_of-append, ◌≡◌, refl,
  arith, ap, Bool-cases, inl, inr,
}
use mathlib.Core.List.{append_assoc, append-nil}
use mtdd_server.Base.Int.{pos}
use mtdd_server.Base.Results.{Result, ok}
use mtdd_server.Pg.Libpq.{PgResult}
use mtdd_server.Codec.RawBatch.{
  raw_pg_batch_magic, raw_pg_batch_version, append_u32, append_cell, append_rows, append_columns,
}
use mtdd_server.Codec.RawBatch.Decode.{read_u32, read_value, read_cell}

-- libpq's promise: a cell that is not NULL has a value, of the length that PQgetlength returns,
-- which is a non-negative `int`.
pub record HasValues (result : PgResult) : Type 0 where
  pub cell_value : ℕ → ℕ → Bytes
  pub value_there :
      (row col : ℕ)
      → result.is_null row col ≡ false
      → (result.value row col ≡ some (cell_value row col))
        × (result.value_length row col ≡ pos (length (cell_value row col)))
        × (length (cell_value row col) < 2 ^ 31)

-- What a row and a column hold: nothing for NULL.
abbrev pub cell : PgResult → ℕ → ℕ → Option Bytes
cell result row col = if result.is_null row col then none else result.value row col

abbrev pub column : PgResult → ℕ → ℕ → ℕ → List (Option Bytes)
column result zero row col = []
column result (suc rows) row col = cell result row col ∷ column result rows (suc row) col

abbrev pub columns : PgResult → ℕ → ℕ → ℕ → ℕ → List (List (Option Bytes))
columns result zero col row rows = []
columns result (suc cols) col row rows =
    column result rows row col ∷ columns result cols (suc col) row rows

-- The bytes of each part, with no accumulator.
abbrev pub u32 : ℕ → Bytes
u32 n = n % 2 ^ 8 ∷ n / 2 ^ 8 % 2 ^ 8 ∷ n / 2 ^ 16 % 2 ^ 8 ∷ n / 2 ^ 24 % 2 ^ 8 ∷ []

abbrev pub cell_bytes : Option Bytes → Bytes
cell_bytes none = 1 ∷ []
cell_bytes (some v) = 0 ∷ (u32 (length v) ++ v)

abbrev pub cells_bytes : List (Option Bytes) → Bytes
cells_bytes [] = []
cells_bytes (c ∷ cs) = cell_bytes c ++ cells_bytes cs

abbrev pub columns_bytes : List (List (Option Bytes)) → Bytes
columns_bytes [] = []
columns_bytes (c ∷ cs) = cells_bytes c ++ columns_bytes cs

take_all : (v : Bytes) → take (length v) v ≡ v
take_all [] = refl
take_all (x ∷ v) = ap (◌∷◌ x) (take_all v)

pub read_u32-u32 :
    (message : Bytes) (n : ℕ) (rest : Bytes)
    → n < 2 ^ 32
    → read_u32 message (u32 n ++ rest) ≡ ok (n, rest)
unfolding read_u32
read_u32-u32 message n rest h =
    let e : n % 2 ^ 8
          + n / 2 ^ 8 % 2 ^ 8 * 2 ^ 8
          + n / 2 ^ 16 % 2 ^ 8 * 2 ^ 16
          + n / 2 ^ 24 % 2 ^ 8 * 2 ^ 24
        ≡ n =
      omega arith in
    ap {B = Result (ℕ × Bytes)} (λ m. ok (m, rest)) e

read_cell_value :
    (w rest : Bytes)
    → length w < 2 ^ 31
    → read_cell (cell_bytes (some w) ++ rest) ≡ ok (some w, rest)
unfolding read_cell read_value
read_cell_value w rest h = ground (
  arith,
  read_u32-u32 (codes "raw PG batch truncated at length") (length w) (w ++ rest) (omega arith),
  length-append w rest,
  take_of-append w rest,
  drop_of-append w rest,
)

abbrev pub header : ℕ → ℕ → Bytes
header rows cols = u32 raw_pg_batch_magic ++ u32 raw_pg_batch_version ++ u32 rows ++ u32 cols

pub header_lem :
    (rows cols : ℕ)
    → append_u32
        (append_u32 (append_u32 (append_u32 [] raw_pg_batch_magic) raw_pg_batch_version) rows)
        cols
      ≡ header rows cols
unfolding append_u32
header_lem rows cols = refl

module _ (result : PgResult) (values : HasValues result) where
  append_cell_lem :
      (out : Bytes) (row col : ℕ)
      → append_cell result out row col ≡ ok (out ++ cell_bytes (cell result row col))
  unfolding append_cell
  append_cell_lem out row col = elim (Bool-cases (result.is_null row col)) [
    | inl null ↦ ground arith
    | inr present ↦
        let (v, l, s) = values.value_there row col present in
        let w = values.cell_value row col in
        ground (
          arith,
          take_all w,
          append_assoc (out ++ 0 ∷ []) (u32 (length w)) w,
          append_assoc out (0 ∷ []) (u32 (length w) ++ w),
        )
  ]

  append_rows_lem :
      (rows : ℕ) (out : Bytes) (row col : ℕ)
      → append_rows result out rows row col ≡ ok (out ++ cells_bytes (column result rows row col))
  unfolding append_rows
  append_rows_lem zero out row col = ground (arith, append-nil out)
  append_rows_lem (suc rows) out row col = ground (
    arith,
    append_cell_lem out row col,
    append_rows_lem rows (out ++ cell_bytes (cell result row col)) (suc row) col,
    append_assoc out (cell_bytes (cell result row col))
        (cells_bytes (column result rows (suc row) col)),
  )

  pub append_columns_lem :
      (cols : ℕ) (out : Bytes) (col row rows : ℕ)
      → append_columns result out cols col row rows
        ≡ ok (out ++ columns_bytes (columns result cols col row rows))
  unfolding append_columns
  append_columns_lem zero out col row rows = ground (arith, append-nil out)
  append_columns_lem (suc cols) out col row rows = ground (
    arith,
    append_rows_lem rows out row col,
    append_columns_lem cols (out ++ cells_bytes (column result rows row col)) (suc col) row rows,
    append_assoc out (cells_bytes (column result rows row col))
        (columns_bytes (columns result cols (suc col) row rows)),
  )

  pub read_cell_lem :
      (row col : ℕ) (rest : Bytes)
      → read_cell (cell_bytes (cell result row col) ++ rest) ≡ ok (cell result row col, rest)
  unfolding read_cell read_value
  read_cell_lem row col rest = elim (Bool-cases (result.is_null row col)) [
    | inl null ↦ ground arith
    | inr present ↦
        let (v, l, s) = values.value_there row col present in
        let w = values.cell_value row col in ground (arith, read_cell_value w rest s)
  ]
