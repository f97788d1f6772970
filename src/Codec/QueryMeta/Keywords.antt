-- ===== src/Codec/QueryMeta/Keywords.antt =====
-- Which SQL texts are streamed through a cursor.
use mtdd_server.Base.{
  ◌≢◌, ℕ, Bytes, true, false, [], ◌∷◌, ◌++◌, map, equal, ◌≡◌, refl, arith, ◌↔◌, ◌⊎◌, inl, inr, All,
  ap, Bool-cases,
}
use mtdd_server.Codec.QueryMeta.{
  to_upper, before, drop_leading, drop_trailing, upper_token, is_white, is_separator, is_keyword,
  is_tuple_streaming_sql,
}

-- White space is a separator, so that trimming the end of the text does not change its first token.
before-drop_trailing :
    (s : Bytes) → before is_separator (drop_trailing is_white s) ≡ before is_separator s
unfolding before drop_trailing
before-drop_trailing [] = refl
before-drop_trailing (c ∷ s) = ground (arith, before-drop_trailing s)

-- A text that begins with a word, behind which stands the end or a separator.
pub record StartsWith (word s : Bytes) : Type 0 where
  pub tail : Bytes
  pub splits : s ≡ word ++ tail
  pub word_only : All (λ c. is_separator c ≡ false) word
  pub ends : (tail ≡ []) ⊎ ((c : ℕ) × (rest : Bytes) × (tail ≡ c ∷ rest) × (is_separator c ≡ true))

-- The same behind white space.
pub record BeginsWith (word sql : Bytes) : Type 0 where
  pub white : Bytes
  pub rest : Bytes
  pub splits : sql ≡ white ++ rest
  pub white_only : All (λ c. is_white c ≡ true) white
  pub starts : StartsWith word rest

upper_token_lem :
    (sql : Bytes) → upper_token sql ≡ map to_upper (before is_separator (drop_leading is_white sql))
unfolding upper_token
upper_token_lem sql = ap (map to_upper) (before-drop_trailing (drop_leading is_white sql))

-- The first word of a text, cut off at its first separator.
StartsWith-before : (s : Bytes) → StartsWith (before is_separator s) s
unfolding before
StartsWith-before [] = record { tail = []; splits = refl; word_only = tt; ends = inl refl }
StartsWith-before (c ∷ s) = elim (Bool-cases (is_separator c)) [
  | inl sep ↦
      rw sep (record { tail = c ∷ s; splits = refl; word_only = tt; ends = inr (c, s, refl, sep) })
  | inr word ↦
      let b = StartsWith-before s in
      rw word (record {
        tail = b.tail;
        splits = ap (◌∷◌ c) b.splits;
        word_only = (word, b.word_only);
        ends = b.ends;
      })
]

-- The word behind the white space in front.
BeginsWith-first : (s : Bytes) → BeginsWith (before is_separator (drop_leading is_white s)) s
unfolding drop_leading
BeginsWith-first [] = record {
  white = [];
  rest = [];
  splits = refl;
  white_only = tt;
  starts = StartsWith-before [];
}
BeginsWith-first (c ∷ s) = elim (Bool-cases (is_white c)) [
  | inl white ↦
      let b = BeginsWith-first s in
      rw white (record {
        white = c ∷ b.white;
        rest = b.rest;
        splits = ap (◌∷◌ c) b.splits;
        white_only = (white, b.white_only);
        starts = b.starts;
      })
  | inr black ↦ rw black (record {
    white = [];
    rest = c ∷ s;
    splits = refl;
    white_only = tt;
    starts = StartsWith-before (c ∷ s);
  })
]

before-word :
    (word tail : Bytes)
    → All (λ c. is_separator c ≡ false) word
    → (tail ≡ []) ⊎ ((c : ℕ) × (rest : Bytes) × (tail ≡ c ∷ rest) × (is_separator c ≡ true))
    → before is_separator (word ++ tail) ≡ word
unfolding before
before-word [] tail w (inl e) = rw e
before-word [] tail w (inr (c, rest, e, sep)) = rw e (rw sep)
before-word (x ∷ word) tail w e = ground (arith, before-word word tail w.1 e)

drop_leading-white :
    (white : Bytes) (c : ℕ) (s : Bytes)
    → All (λ x. is_white x ≡ true) white
    → is_separator c ≡ false
    → drop_leading is_white (white ++ c ∷ s) ≡ c ∷ s
unfolding drop_leading
drop_leading-white [] c s w h = ground arith
drop_leading-white (x ∷ white) c s w h = ground (arith, drop_leading-white white c s w.1 h)

first_word :
    (word sql : Bytes)
    → BeginsWith word sql
    → word ≢ []
    → before is_separator (drop_leading is_white sql) ≡ word
first_word [] sql b h = absurd (h refl)
first_word (c ∷ word) sql b h =
    let t = b.starts in
    rw
      (b.splits, t.splits, drop_leading-white b.white c (word ++ t.tail) b.white_only t.word_only.0)
      (before-word (c ∷ word) t.tail t.word_only t.ends)

word_nonempty : (word : Bytes) → is_keyword (map to_upper word) ≡ true → word ≢ []
unfolding equal
word_nonempty [] h e = cc
word_nonempty (c ∷ word) h e = cc

-- A query is streamed through a cursor exactly if, behind white space, it begins with one of the
-- four keywords in any case, and a separator or the end of the text stands behind the keyword.
pub is_tuple_streaming_sql_lem :
    (sql : Bytes)
    → (is_tuple_streaming_sql sql ≡ true)
      ↔ ((word : Bytes) × BeginsWith word sql × (is_keyword (map to_upper word) ≡ true))
unfolding is_tuple_streaming_sql
is_tuple_streaming_sql_lem sql = (
  (λ h. (
    before is_separator (drop_leading is_white sql),
    BeginsWith-first sql,
    rw (← upper_token_lem sql) h,
  )),
  (λ p. rw (upper_token_lem sql, first_word p.0 sql p.1 (word_nonempty p.0 p.2)) p.2),
)
