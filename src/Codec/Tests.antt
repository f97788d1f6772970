-- ===== src/Codec/Tests.antt =====
-- The theorems on the codec at concrete results and texts.
use mtdd_server.Base.{
  ℕ, zero, suc, Bytes, codes, List, [], ◌∷◌, none, some, Bool, true, false, ◌≡◌, ◌↔◌, map,
}
use mtdd_server.Base.Int.{pos}
use mtdd_server.Pg.Libpq.{PgResult, tuples_ok}
use mtdd_server.Codec.QueryMeta.{to_upper, is_keyword, is_tuple_streaming_sql}
use mtdd_server.Codec.QueryMeta.Keywords.{BeginsWith, is_tuple_streaming_sql_lem}

-- The first column is NULL, the second holds two bytes.
abbrev is_first : ℕ → Bool
is_first zero = true
is_first (suc c) = false

abbrev result : PgResult
result = record {
  status = tuples_ok;
  error_message = [];
  error_field = λ f. none;
  cmd_status = some (codes "SELECT 3");
  cmd_tuples = some (codes "3");
  num_fields = 2;
  num_rows = 3;
  field_name = λ c. some (codes "id");
  field_table = λ c. 0;
  field_table_column = λ c. pos 0;
  field_type = λ c. 25;
  field_format = λ c. pos 0;
  is_null = λ r c. is_first c;
  value = λ r c. some (codes "ab");
  value_length = λ r c. pos 2;
}

-- Two columns with one name.
abbrev names : List Bytes
names = codes "id" ∷ codes "id" ∷ []

is_tuple_streaming_sql_lem_example : (is_tuple_streaming_sql (codes " select 1") ≡ true) ↔ (
    (word : Bytes) × BeginsWith word (codes " select 1") × (is_keyword (map to_upper word) ≡ true))
is_tuple_streaming_sql_lem_example = is_tuple_streaming_sql_lem (codes " select 1")
