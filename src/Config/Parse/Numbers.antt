-- ===== src/Config/Parse/Numbers.antt =====
-- What the integer parsers make of the decimal text of a number, over the whole range of `long`.
use mtdd_server.Base.{
  dec_lt, ◌⊎◌, inl, inr, refl, ℕ, ◌^◌, ◌≤◌, ◌<◌, Bytes, codes, false, some, [], ◌++◌, ◌≡◌, arith,
  ◌∙◌,
}
use mtdd_server.Base.Int.{ℤ, pos, is_positive, int_cast, int_cast_small}
use mtdd_server.Base.Decimal.{to_string}
use mtdd_server.Base.Decimal.RoundTrip.{to_string_nonempty, strtol-to_string}
use mtdd_server.Base.Results.{ok}
use mtdd_server.Config.Parse.{checked, not_positive, parse_positive_int}

-- A value that is set to a number's text is handed to `strtol`, which returns the number.
parse_positive_int_text :
    (name : Bytes) (n : ℕ) (d : ℤ)
    → n < 2 ^ 63
    → parse_positive_int name (some (to_string n)) d
      ≡ checked not_positive (name ++ codes " must be a positive integer") (some (pos n, []))
unfolding parse_positive_int
parse_positive_int_text name n d h =
    let (c, s, e) = to_string_nonempty n in rw e (rw (rw e at (strtol-to_string n h)))

-- ParsePositiveInt reads the decimal text of a number from 1 up to the largest int as that number.
pub parse_positive_int-to_string :
    (name : Bytes) (n : ℕ) (d : ℤ)
    → 0 < n
    → n < 2 ^ 31
    → parse_positive_int name (some (to_string n)) d ≡ ok (pos n)
unfolding checked
parse_positive_int-to_string name n d h k =
    parse_positive_int_text name n d (omega arith) ∙ ground (arith, int_cast_small n k)

-- ParsePositiveInt accepts the decimal text of every number from 1 up to 2^32. Below 2^31 it
-- returns the number; from there on, the int that it returns is not positive.
pub parse_positive_int_lem :
    (name : Bytes) (n : ℕ) (d : ℤ)
    → 0 < n
    → n ≤ 2 ^ 32
    → (m : ℤ) × (parse_positive_int name (some (to_string n)) d ≡ ok m)
      × (((n < 2 ^ 31) × (m ≡ pos n)) ⊎ ((2 ^ 31 ≤ n) × (is_positive m ≡ false)))
unfolding checked int_cast
parse_positive_int_lem name n d h k = elim (dec_lt n (2 ^ 31)) [
  | yes small ↦ (pos n, parse_positive_int-to_string name n d h small, inl (small, refl))
  | no large ↦ (
    int_cast (pos n),
    parse_positive_int_text name n d (omega arith) ∙ ground arith,
    inr (omega (arith, large), ground arith),
  )
]
