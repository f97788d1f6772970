-- ===== src/Config/Parse.antt =====
-- The parsers of single environment values in src/config.cpp. A value is `none` where the variable
-- is not set; the functions take an empty value for one that is not set.
pub mod Numbers
use mtdd_server.Base.{
  ℕ, Bytes, codes, Bool, true, false, not, ◌||◌, ◌&&◌, Option, none, some, [], ◌∷◌, ◌++◌, ltb,
  is_empty, equal, if◌then◌else◌, ◌≡◌, refl,
}
use mtdd_server.Base.Int.{ℤ, pos, negsuc, is_positive, ltb_ℤ, int_cast}
use mtdd_server.Base.Decimal.{strtol, scan}
use mtdd_server.Base.Results.{Result, ok, throw, throw_if, ◌>>=◌, ◌>>◌}

-- `value == nullptr || *value == '\0'`, or the text.
abbrev pub set_value : Option Bytes → Option Bytes
set_value none = none
set_value (some []) = none
set_value (some (c ∷ s)) = some (c ∷ s)

-- The test behind `strtol`: all of the text is converted, and `refused` does not hold of the value.
unfoldable pub checked : (ℤ → Bool) → Bytes → Option (ℤ × Bytes) → Result ℤ
checked refused message none = throw message
checked refused message (some (parsed, rest)) =
    if not (is_empty rest) || refused parsed then throw message else ok (int_cast parsed)

abbrev pub not_positive : ℤ → Bool
not_positive n = not (is_positive n)

abbrev pub is_negative : ℤ → Bool
is_negative n = ltb_ℤ n (pos 0)

abbrev pub not_mode : ℤ → Bool
not_mode n = is_negative n || ltb_ℤ (pos 0o777) n

unfoldable pub parse_positive_int : Bytes → Option Bytes → ℤ → Result ℤ
parse_positive_int name value default_value = elim (set_value value) [
  | none ↦ ok default_value
  | some text ↦ checked not_positive (name ++ codes " must be a positive integer") (strtol 10 text)
]

unfoldable pub parse_non_negative_int : Bytes → Option Bytes → ℤ → Result ℤ
parse_non_negative_int name value default_value = elim (set_value value) [
  | none ↦ ok default_value
  | some text ↦
      checked is_negative (name ++ codes " must be a non-negative integer") (strtol 10 text)
]

unfoldable pub parse_octal_mode : Bytes → Option Bytes → ℤ → Result ℤ
parse_octal_mode name value default_value = elim (set_value value) [
  | none ↦ ok default_value
  | some text ↦
      checked not_mode (name ++ codes " must be a unix socket mode (octal, e.g. 660)")
        (strtol 8 text)
]

unfoldable pub parse_optional_host_index : Option Bytes → Result (Option ℤ)
parse_optional_host_index value = elim (set_value value) [
  | none ↦ ok none
  | some text ↦ do
    index ←
        checked is_negative (codes "MTDD_HOST_INDEX must be a non-negative integer")
          (strtol 10 text)
    ok (some index)
]

abbrev is_true_text : Bytes → Bool
is_true_text v =
    equal v (codes "1")
    || equal v (codes "true")
    || equal v (codes "TRUE")
    || equal v (codes "yes")
    || equal v (codes "YES")

abbrev is_false_text : Bytes → Bool
is_false_text v =
    equal v (codes "0")
    || equal v (codes "false")
    || equal v (codes "FALSE")
    || equal v (codes "no")
    || equal v (codes "NO")

unfoldable pub parse_bool_env : Option Bytes → Bool → Result Bool
parse_bool_env value default_value = elim (set_value value) [
  | none ↦ ok default_value
  | some v ↦
      if is_true_text v
      then ok true
      else if is_false_text v
      then ok false
      else throw (codes "invalid boolean env value: " ++ v)
]

unfoldable pub is_production_env : Option Bytes → Bool
is_production_env value = elim (set_value value) [
  | none ↦ false
  | some v ↦ equal v (codes "production") || equal v (codes "prod")
]

test_octal : parse_octal_mode (codes "M") (some (codes "0660")) (pos 0) ≡ ok (pos 0o660)
unfolding parse_octal_mode checked strtol scan int_cast
test_octal = refl
