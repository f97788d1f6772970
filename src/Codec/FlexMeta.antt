-- ===== src/Codec/FlexMeta.antt =====
-- src/codec/flex_meta.h and flex_meta.cpp: the metadata of a result. The FlexBuffers library is a
-- parameter: what the code hands to its builder is a tree, and `serialize` makes bytes of a tree.
use mtdd_server.Base.{ℕ, Bytes, codes, List, [], ◌∷◌, ◌==◌, if◌then◌else◌}
use mtdd_server.Base.Int.{ℤ}

pub record FieldInfo : Type 0 where
  pub name : Bytes
  pub table_oid : ℕ
  pub column_id : ℕ
  pub data_type_oid : ℕ
  pub format : ℤ

pub record ResultSchema : Type 0 where
  pub command : Bytes
  pub fields : List FieldInfo

pub record ResultTrailer : Type 0 where
  pub command_tag : Bytes
  pub row_count : ℤ
  pub oid : ℕ

-- codec::PgError
pub record FlexError : Type 0 where
  pub sqlstate : Bytes
  pub severity : Bytes
  pub message : Bytes
  pub detail : Bytes
  pub position : Bytes

-- What is handed to flexbuffers::Builder.
mutual
  pub data Flex : Type 0 where
    string : Bytes → Flex
    uint : ℕ → Flex
    int : ℤ → Flex
    map : Entries → Flex
    vector : Items → Flex

  pub data Entries : Type 0 where
    done : Entries
    entry : Bytes → Flex → Entries → Entries

  pub data Items : Type 0 where
    nil : Items
    item : Flex → Items → Items

-- s.c_str() as a C string: it ends at the first zero byte.
unfoldable pub c_str : Bytes → Bytes
c_str [] = []
c_str (c ∷ s) = if c == 0 then [] else c ∷ c_str s

unfoldable pub field_tree : FieldInfo → Flex
field_tree field = map (
    entry (codes "name") (string (c_str field.name)) (
      entry (codes "table_oid") (uint field.table_oid) (
        entry (codes "column_id") (uint field.column_id) (
          entry (codes "data_type_oid") (uint field.data_type_oid)
            (entry (codes "format") (int field.format) done)))))

unfoldable pub field_items : List FieldInfo → Items
unfolding field_tree
field_items [] = nil
field_items (f ∷ fs) = item (field_tree f) (field_items fs)

unfoldable pub schema_tree : ResultSchema → Flex
unfolding field_items
schema_tree schema = map (
    entry (codes "command") (string (c_str schema.command))
      (entry (codes "fields") (vector (field_items schema.fields)) done))

unfoldable pub trailer_tree : ResultTrailer → Flex
trailer_tree trailer = map (
    entry (codes "command_tag") (string (c_str trailer.command_tag)) (
      entry (codes "row_count") (int trailer.row_count)
        (entry (codes "oid") (uint trailer.oid) done)))

unfoldable pub error_tree : FlexError → Flex
error_tree error = map (
    entry (codes "sqlstate") (string (c_str error.sqlstate)) (
      entry (codes "severity") (string (c_str error.severity)) (
        entry (codes "message") (string (c_str error.message)) (
          entry (codes "detail") (string (c_str error.detail))
            (entry (codes "position") (string (c_str error.position)) done)))))

module _ (serialize : Flex → Bytes) where
  unfoldable pub encode_result_schema : ResultSchema → Bytes
  unfolding schema_tree
  encode_result_schema schema = serialize (schema_tree schema)

  unfoldable pub encode_result_trailer : ResultTrailer → Bytes
  unfolding trailer_tree
  encode_result_trailer trailer = serialize (trailer_tree trailer)

  unfoldable pub encode_pg_error : FlexError → Bytes
  unfolding error_tree
  encode_pg_error error = serialize (error_tree error)
