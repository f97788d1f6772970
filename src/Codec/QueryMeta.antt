-- ===== src/Codec/QueryMeta.antt =====
-- src/codec/query_meta.cpp: what a result and an SQL text say about themselves.
pub mod Keywords
use mtdd_server.Base.{
  ℕ, zero, suc, ◌+◌, ◌-◌, ◌^◌, ◌%◌, Bytes, codes, Bool, true, false, not, ◌&&◌, ◌||◌, Option, none,
  some, List, [], ◌∷◌, ◌++◌, leb, ltb, ◌==◌, if◌then◌else◌, map, equal, is_empty, ◌≡◌, refl,
}
use mtdd_server.Base.Int.{ℤ, pos, negsuc, uint32_cast}
use mtdd_server.Base.Decimal.{to_string, strtol}
use mtdd_server.Pg.Libpq.{PgResult, ExecStatus, command_ok}
use mtdd_server.Codec.FlexMeta.{FieldInfo, ResultSchema, ResultTrailer}

-- std::toupper in the "C" locale.
unfoldable pub to_upper : ℕ → ℕ
to_upper c = if leb b'a' c && leb c b'z' then c - 32 else c

-- s.substr(0, s.find_first_of(set)), or all of `s`.
unfoldable pub before : (ℕ → Bool) → Bytes → Bytes
before set [] = []
before set (c ∷ s) = if set c then [] else c ∷ before set s

-- s.substr(s.find_first_not_of(set)), or nothing.
unfoldable pub drop_leading : (ℕ → Bool) → Bytes → Bytes
drop_leading set [] = []
drop_leading set (c ∷ s) = let rest = drop_leading set s in if set c then rest else c ∷ s

-- `s` up to s.find_last_not_of(set).
unfoldable pub drop_trailing : (ℕ → Bool) → Bytes → Bytes
drop_trailing set [] = []
drop_trailing set (c ∷ s) =
    let rest = drop_trailing set s in if is_empty rest && set c then [] else c ∷ rest

abbrev pub is_blank : ℕ → Bool
is_blank c = c == b' ' || c == b'\t'

abbrev pub is_white : ℕ → Bool
is_white c = c == b' ' || c == b'\t' || c == b'\r' || c == b'\n'

abbrev pub is_separator : ℕ → Bool
is_separator c = is_white c || c == b'('

abbrev command_token : Bytes → Bytes
command_token [] = codes "SELECT"
command_token (c ∷ token) = map to_upper (c ∷ token)

unfoldable pub command_from_status : Option Bytes → Bytes
unfolding before to_upper
command_from_status none = codes "SELECT"
command_from_status (some []) = codes "SELECT"
command_from_status (some (c ∷ status)) = command_token (before is_blank (c ∷ status))

unfoldable pub trim_sql : Bytes → Bytes
trim_sql sql = drop_trailing is_white (drop_leading is_white sql)

unfoldable pub upper_token : Bytes → Bytes
unfolding trim_sql
upper_token sql = map to_upper (before is_separator (trim_sql sql))

abbrev pub is_keyword : Bytes → Bool
is_keyword token =
    equal token (codes "SELECT")
    || equal token (codes "WITH")
    || equal token (codes "TABLE")
    || equal token (codes "VALUES")

unfoldable pub is_tuple_streaming_sql : Bytes → Bool
is_tuple_streaming_sql sql = is_keyword (upper_token sql)

-- A pointer to a string, or "".
abbrev or_empty : Option Bytes → Bytes
or_empty none = []
or_empty (some s) = s

abbrev field_info : PgResult → ℕ → FieldInfo
field_info result col = record {
  name = or_empty (result.field_name col);
  table_oid = result.field_table col % 2 ^ 32;
  column_id = uint32_cast (result.field_table_column col);
  data_type_oid = result.field_type col % 2 ^ 32;
  format = result.field_format col;
}

-- The loop: `fields` columns from `col` on.
unfoldable pub field_infos : PgResult → ℕ → ℕ → List FieldInfo
field_infos result zero col = []
field_infos result (suc fields) col = field_info result col ∷ field_infos result fields (suc col)

unfoldable pub build_schema_meta : PgResult → ResultSchema
unfolding field_infos
build_schema_meta result = record {
  command = command_from_status result.cmd_status;
  fields = field_infos result result.num_fields 0;
}

-- std::strtoll(tuples, nullptr, 10), which is 0 where nothing is converted.
abbrev parsed_count : Option (ℤ × Bytes) → ℤ
parsed_count none = pos 0
parsed_count (some (n, rest)) = n

abbrev tuples_count : Option Bytes → ℤ
tuples_count none = pos 0
tuples_count (some tuples) = parsed_count (strtol 10 tuples)

-- The status text, or the tag.
abbrev status_or : Option Bytes → Bytes → Bytes
status_or none tag = tag
status_or (some status) tag = status

abbrev is_command_ok : ExecStatus → Bool
is_command_ok command_ok = true
is_command_ok _ = false

unfoldable pub build_command_trailer : PgResult → ResultTrailer
build_command_trailer result =
    let command = command_from_status result.cmd_status in
    if is_command_ok result.status
    then record {
      command_tag = status_or result.cmd_status command;
      row_count = tuples_count result.cmd_tuples;
      oid = 0;
    }
    else record {
      command_tag = status_or result.cmd_status (command ++ codes " " ++ to_string result.num_rows);
      row_count = pos result.num_rows;
      oid = 0;
    }

test_streaming : is_tuple_streaming_sql (codes "  select(1) ") ≡ true
unfolding is_tuple_streaming_sql upper_token to_upper before drop_leading drop_trailing equal
test_streaming = refl
