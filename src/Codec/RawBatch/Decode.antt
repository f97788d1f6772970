-- ===== src/Codec/RawBatch/Decode.antt =====
-- The framing of decodeRawPgBatch in integration/lib/pg-binary-decode.js, which reads what the
-- server writes. The cells come out as raw bytes, in an object for each row; what decodePgCell
-- makes of them, and what JavaScript makes of a column with the name `__proto__`, is not modelled.
-- A thrown Error is a `throw` of the fixed part of its message.
use mtdd_server.Base.{
  ℕ, zero, suc, ◌+◌, ◌*◌, ◌^◌, Bytes, codes, not, Option, none, some, List, [], ◌∷◌, ltb, ◌==◌,
  if◌then◌else◌, take, drop, length, Bytes-discrete,
}
use mtdd_server.Base.Maps.{assign}
use mtdd_server.Base.Results.{Result, ok, throw, throw_if, ◌>>=◌, ◌>>◌}
use mtdd_server.Codec.RawBatch.{raw_pg_batch_magic, raw_pg_batch_version}

-- readUInt32LE of the first four bytes, and the bytes behind them.
unfoldable pub read_u32 : Bytes → Bytes → Result (ℕ × Bytes)
read_u32 message (a ∷ b ∷ c ∷ d ∷ rest) = ok (a + b * 2 ^ 8 + c * 2 ^ 16 + d * 2 ^ 24, rest)
read_u32 message _ = throw message

-- `value_length` bytes, and what is behind them.
unfoldable pub read_value : ℕ → Bytes → Result (Option Bytes × Bytes)
read_value value_length buffer =
    if ltb (length buffer) value_length
    then throw (codes "raw PG batch truncated at value")
    else ok (some (take value_length buffer), drop value_length buffer)

-- One cell: null, or its bytes.
unfoldable pub read_cell : Bytes → Result (Option Bytes × Bytes)
unfolding read_value
read_cell [] = throw (codes "raw PG batch truncated")
read_cell (flag ∷ buffer) = if not (flag == 0) then ok (none, buffer) else (do
  (value_length, rest) ← read_u32 (codes "raw PG batch truncated at length") buffer
  read_value value_length rest)

-- An object from column names to cells. A name that comes twice keeps the later cell.
abbrev pub Row : Type 0
Row = List (Bytes × Option Bytes)

-- The inner loop: the cells of a column, each into the object of its row.
unfoldable pub read_rows : Bytes → List Row → Bytes → Result (List Row × Bytes)
read_rows name [] buffer = ok ([], buffer)
read_rows name (row ∷ rows) buffer = do
  (cell, rest) ← read_cell buffer
  (rows', rest') ← read_rows name rows rest
  ok (assign Bytes-discrete name cell row ∷ rows', rest')

-- The outer loop, over the names of the columns.
unfoldable pub read_columns : List Bytes → List Row → Bytes → Result (List Row × Bytes)
read_columns [] rows buffer = ok (rows, buffer)
read_columns (name ∷ names) rows buffer = do
  (rows', rest) ← read_rows name rows buffer
  read_columns names rows' rest

abbrev pub empty_rows : ℕ → List Row
empty_rows zero = []
empty_rows (suc n) = [] ∷ empty_rows n

-- The batch of a schema whose fields have these names. A header that is cut short is `too short`.
unfoldable pub decode_raw_pg_batch : Bytes → List Bytes → Result (List Row)
decode_raw_pg_batch [] names = ok []
decode_raw_pg_batch (byte ∷ payload) names = do
  let too_short = codes "raw PG batch too short"
  (magic, rest) ← read_u32 too_short (byte ∷ payload)
  (version, rest₁) ← read_u32 too_short rest
  (num_rows, rest₂) ← read_u32 too_short rest₁
  (num_cols, buffer) ← read_u32 too_short rest₂
  throw_if (not (magic == raw_pg_batch_magic)) (codes "invalid raw PG batch magic")
  throw_if (not (version == raw_pg_batch_version)) (codes "unsupported raw PG batch version")
  throw_if (not (num_cols == length names)) (codes "column count mismatch")
  (rows, _) ← read_columns names (empty_rows num_rows) buffer
  ok rows
