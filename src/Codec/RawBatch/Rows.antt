-- ===== src/Codec/RawBatch/Rows.antt =====
-- The objects that decodeRawPgBatch (integration/lib/pg-binary-decode.js) fills, by their names.
use mtdd_server.Base.{
  ℕ, zero, suc, Bytes, Bytes-discrete, Option, none, some, List, [], ◌∷◌, length, ◌≡◌, refl, ◌∙◌,
  arith,
}
use mtdd_server.Base.Maps.{lookup, assign, lookup-assign}
use mtdd_server.Pg.Libpq.{PgResult}
use mtdd_server.Codec.RawBatch.Frame.{cell}
use mtdd_server.Codec.RawBatch.Decode.{Row, empty_rows}

-- The objects of the rows from `row` on, by what stands under each name.
abbrev pub Are : (ℕ → Bytes → Option (Option Bytes)) → ℕ → List Row → Type 0
Are f row [] = Unit
Are f row (r ∷ rs) =
    ((name : Bytes) → lookup Bytes-discrete name r ≡ f row name) × Are f (suc row) rs

pub Are-weaken :
    (f g : ℕ → Bytes → Option (Option Bytes)) (row : ℕ) (rs : List Row)
    → ((r : ℕ) (name : Bytes) → f r name ≡ g r name)
    → Are f row rs
    → Are g row rs
Are-weaken f g row [] e h = tt
Are-weaken f g row (r ∷ rs) e h =
    ((λ name. h.0 name ∙ e row name), Are-weaken f g (suc row) rs e h.1)

pub length-empty_rows : (n : ℕ) → length (empty_rows n) ≡ n
length-empty_rows zero = refl
length-empty_rows (suc n) = omega (arith, length-empty_rows n)

pub empty_rows-Are : (n row : ℕ) → Are (λ r name. none) row (empty_rows n)
unfolding lookup
empty_rows-Are zero row = tt
empty_rows-Are (suc n) row = ((λ name. refl), empty_rows-Are n (suc row))

module _ (result : PgResult) where
  -- What the inner and the outer loop make of the objects of the rows.
  abbrev pub put_cells : Bytes → ℕ → ℕ → List Row → List Row
  put_cells name row col [] = []
  put_cells name row col (r ∷ rs) =
      assign Bytes-discrete name (cell result row col) r ∷ put_cells name (suc row) col rs

  abbrev pub put_columns : List Bytes → ℕ → ℕ → List Row → List Row
  put_columns [] col row rs = rs
  put_columns (name ∷ names) col row rs =
      put_columns names (suc col) row (put_cells name row col rs)

  pub length-put_cells :
      (name : Bytes) (row col : ℕ) (rs : List Row) → length (put_cells name row col rs) ≡ length rs
  length-put_cells name row col [] = refl
  length-put_cells name row col (r ∷ rs) = omega (arith, length-put_cells name (suc row) col rs)

  pub length-put_columns :
      (names : List Bytes) (col row : ℕ) (rs : List Row)
      → length (put_columns names col row rs) ≡ length rs
  length-put_columns [] col row rs = refl
  length-put_columns (name ∷ names) col row rs =
      length-put_columns names (suc col) row (put_cells name row col rs)
      ∙ length-put_cells name row col rs

  -- The cell of a row under a name: that of the last column with this name.
  abbrev pub cell_of : List Bytes → ℕ → ℕ → Bytes → Option (Option Bytes)
  cell_of [] col row name = none
  cell_of (n ∷ names) col row name = elim (cell_of names (suc col) row name) [
    | some c ↦ some c
    | none ↦ elim (Bytes-discrete n name) [ yes _ ↦ some (cell result row col) | no _ ↦ none ]
  ]

  -- A cell that was put, or what was there before.
  abbrev or_put :
      Bytes → ℕ → (ℕ → Bytes → Option (Option Bytes)) → ℕ → Bytes → Option (Option Bytes)
  or_put n col f row name = elim (Bytes-discrete n name) [
    | yes _ ↦ some (cell result row col)
    | no _ ↦ f row name
  ]

  put_cells-Are :
      (f : ℕ → Bytes → Option (Option Bytes)) (n : Bytes) (row col : ℕ) (rs : List Row)
      → Are f row rs
      → Are (or_put n col f) row (put_cells n row col rs)
  put_cells-Are f n row col [] h = tt
  put_cells-Are f n row col (r ∷ rs) h = (
    λ name. ground (arith, lookup-assign Bytes-discrete n name (cell result row col) r, h.0 name),
    put_cells-Are f n (suc row) col rs h.1,
  )

  -- The cell that the columns put last, or what was there before.
  abbrev pub or_last :
      List Bytes → ℕ → (ℕ → Bytes → Option (Option Bytes)) → ℕ → Bytes → Option (Option Bytes)
  or_last names col f row name = elim (cell_of names col row name) [
    | some c ↦ some c
    | none ↦ f row name
  ]

  or_last-or_put :
      (n : Bytes) (names : List Bytes) (col : ℕ) (f : ℕ → Bytes → Option (Option Bytes)) (row : ℕ)
      (name : Bytes)
      → or_last names (suc col) (or_put n col f) row name ≡ or_last (n ∷ names) col f row name
  or_last-or_put n names col f row name = ground arith

  pub put_columns-Are :
      (f : ℕ → Bytes → Option (Option Bytes)) (names : List Bytes) (row col : ℕ) (rs : List Row)
      → Are f row rs
      → Are (or_last names col f) row (put_columns names col row rs)
  put_columns-Are f [] row col rs h = h
  put_columns-Are f (n ∷ names) row col rs h =
      Are-weaken (or_last names (suc col) (or_put n col f)) (or_last (n ∷ names) col f) row
        (put_columns names (suc col) row (put_cells n row col rs)) (or_last-or_put n names col f)
        (put_columns-Are (or_put n col f) names row (suc col) (put_cells n row col rs)
          (put_cells-Are f n row col rs h))
