-- ===== src/Pg/Libpq.antt =====
-- The part of libpq that src/pg and src/codec call. The library is no part of the repository: its
-- results are records of what the accessors return, and its calls on a connection are functions
-- over an arbitrary server state.
use mtdd_server.Base.{ℕ, Bytes, Bool, Option, List}
use mtdd_server.Base.Int.{ℤ}

-- ExecStatusType
pub data ExecStatus : Type 0 where
  empty_query command_ok tuples_ok nonfatal_error fatal_error other_status : ExecStatus

-- PGTransactionStatusType
pub data TransactionStatus : Type 0 where
  idle active in_transaction in_error unknown : TransactionStatus

-- The fields of PQresultErrorField that the server reads.
pub data DiagField : Type 0 where
  sqlstate severity message_primary message_detail statement_position : DiagField

-- A PGresult. Rows and columns count from 0, and a pointer that may be null is an option. The
-- bytes at the pointer that PQgetvalue returns are `value`, and PQgetlength is `value_length`.
pub record PgResult : Type 0 where
  pub status : ExecStatus
  pub error_message : Bytes
  pub error_field : DiagField → Option Bytes
  pub cmd_status : Option Bytes
  pub cmd_tuples : Option Bytes
  pub num_fields : ℕ
  pub num_rows : ℕ
  pub field_name : ℕ → Option Bytes
  pub field_table : ℕ → ℕ
  pub field_table_column : ℕ → ℤ
  pub field_type : ℕ → ℕ
  pub field_format : ℕ → ℤ
  pub is_null : ℕ → ℕ → Bool
  pub value : ℕ → ℕ → Option Bytes
  pub value_length : ℕ → ℕ → ℤ

-- A parameter of PQexecParams: the pointer to its value, its length, format and type.
pub record Param : Type 0 where
  pub value : Option Bytes
  pub length : ℤ
  pub format : ℤ
  pub type : ℕ

-- The calls on connections; a connection is its address, a number.
pub record Libpq (S : Type 0) : Type 0 where
  pub connectdb : Bytes → S → Option ℕ × S
  pub finish : ℕ → S → S
  pub connection_ok : ℕ → S → Bool
  pub connection_error : ℕ → S → Bytes
  pub transaction_status : ℕ → S → TransactionStatus
  pub exec : ℕ → Bytes → S → Option PgResult × S
  pub exec_params : ℕ → Bytes → List Param → ℤ → S → Option PgResult × S
