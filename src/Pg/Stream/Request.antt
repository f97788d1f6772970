-- ===== src/Pg/Stream/Request.antt =====
-- A query request, and the parameter buffers that are made of it (`BuildParams` in
-- src/pg/streaming_query.cpp; the loop in `QueryExecutor::Execute` is the same).
use mtdd_server.Base.{
  ℕ, ◌^◌, ◌%◌, Bytes, ◌&&◌, none, some, List, [], ◌∷◌, if◌then◌else◌, is_empty, length,
}
use mtdd_server.Base.Int.{ℤ, pos, equal_ℤ, int_cast}
use mtdd_server.Pg.Libpq.{Param}

-- mtdd::QueryParam
pub record QueryParam : Type 0 where
  pub value : Bytes
  pub format : ℤ
  pub oid : ℕ

-- mtdd::QueryRequest
pub record QueryRequest : Type 0 where
  pub host_index : ℤ
  pub text : Bytes
  pub name : Bytes
  pub row_mode : Bytes
  pub params : List QueryParam
  pub result_format : ℤ
  pub session_id : Bytes

-- An empty value in text format is a null pointer.
unfoldable pub build_param : QueryParam → Param
build_param p =
    if is_empty p.value && equal_ℤ p.format (pos 0)
    then record { value = none; length = pos 0; format = p.format; type = p.oid % 2 ^ 32 }
    else record {
      value = some p.value;
      length = int_cast (pos (length p.value));
      format = p.format;
      type = p.oid % 2 ^ 32;
    }

unfoldable pub build_param_list : List QueryParam → List Param
unfolding build_param
build_param_list [] = []
build_param_list (p ∷ ps) = build_param p ∷ build_param_list ps

unfoldable pub build_params : QueryRequest → List Param
unfolding build_param_list
build_params request = build_param_list request.params

-- request.result_format() != 0 ? 1 : 0
abbrev pub result_format_flag : QueryRequest → ℤ
result_format_flag request = if equal_ℤ request.result_format (pos 0) then pos 0 else pos 1
