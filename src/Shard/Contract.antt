-- ===== src/Shard/Contract.antt =====
-- What QueryStream (src/service/mtdd_shard_service.cpp) relies on of the query it streams, and the
-- order of the chunks that a client reads.
use mtdd_server.Base.{
  ℕ, ◌<◌, ◌≤◌, if◌then◌else◌, Bool, true, false, Option, none, some, List, [], ◌∷◌, ◌++◌, ◌≡◌, ◌≢◌,
  refl,
}
use mtdd_server.Pg.Libpq.{PgResult}
use mtdd_server.Pg.Stream.State.{Outcome, done, stuck}
use mtdd_server.Shard.Chunks.{
  ChunkKind, schema, batch, trailer, error, ResultChunk, Query, Call, Run, returns, blocked,
  out_of_fuel, continue,
}

module _ {T : Type 0} where
  -- A fetch comes back, and where it brings rows fewer are left.
  abbrev pub Fetched : (T → Type 0) → (T → ℕ) → ℕ → Outcome (Option PgResult × T) → Type 0
  Fetched Inv left n (done (none, t)) = Inv t
  Fetched Inv left n (done (some r, t)) = Inv t × (left t ≤ n) × (r.num_rows ≢ 0 → left t < n)
  Fetched Inv left n (stuck w) = ⊥

  abbrev pub Finished : (T → Type 0) → Outcome (Unit {0} × T) → Type 0
  Finished Released (done (_, t)) = Released t
  Finished Released (stuck w) = ⊥

-- The query keeps `Inv` while it is open, has `left` results with rows still to come at most, and
-- is `Released true` by Close and `Released false` by Abort.
pub record Contract {T : Type 0} (query : Query T) (Inv : T → Type 0) (Released : Bool → T → Type 0)
    (left : T → ℕ) : Type 0 where
  pub fetches : (t : T) → Inv t → Fetched Inv left (left t) (query.fetch t)
  pub clears :
      (r : Option PgResult) (t : T)
      → Inv t
      → Inv (query.clear r t) × (left (query.clear r t) ≡ left t)
  pub closes : (t : T) → Inv t → Finished (Released true) (query.close t)
  pub aborts : (t : T) → Inv t → Finished (Released false) (query.abort t)

-- Where a reader of the stream stands.
pub data Phase : Type 0 where
  before_schema in_rows completed failed : Phase

abbrev pub advance : Phase → ChunkKind → Option Phase
advance before_schema schema = some in_rows
advance before_schema trailer = some completed
advance before_schema error = some failed
advance in_rows batch = some in_rows
advance in_rows trailer = some completed
advance in_rows error = some failed
advance _ _ = none

abbrev pub advance_option : Option Phase → ChunkKind → Option Phase
advance_option none kind = none
advance_option (some phase) kind = advance phase kind

unfoldable pub read_from : Option Phase → List ResultChunk → Option Phase
read_from phase [] = phase
read_from phase (chunk ∷ chunks) = read_from (advance_option phase chunk.kind) chunks

-- Where the reader of all chunks stands, if they are in order.
unfoldable pub phase_of : List ResultChunk → Option Phase
phase_of chunks = read_from (some before_schema) chunks

read_from-append :
    (phase : Option Phase) (chunks : List ResultChunk) (chunk : ResultChunk)
    → read_from phase (chunks ++ chunk ∷ []) ≡ advance_option (read_from phase chunks) chunk.kind
unfolding read_from
read_from-append phase [] chunk = refl
read_from-append phase (c ∷ chunks) chunk =
    read_from-append (advance_option phase c.kind) chunks chunk

pub phase_of-append :
    (chunks : List ResultChunk) (chunk : ResultChunk)
    → phase_of (chunks ++ chunk ∷ []) ≡ advance_option (phase_of chunks) chunk.kind
unfolding phase_of
phase_of-append = read_from-append (some before_schema)

module _ {T C A : Type 0} where
  -- The run comes to an end, in `Post`.
  abbrev pub Ends : (A → Call T C → Type 0) → Run (A × Call T C) → Type 0
  Ends Post (returns (a, c)) = Post a c
  Ends Post (blocked w) = ⊥
  Ends Post out_of_fuel = ⊥

module _ {T C A B : Type 0} where
  pub Ends-continue :
      (Post : B → Call T C → Type 0) (Mid : A → Call T C → Type 0) (m : Run (A × Call T C))
      (f : A → Call T C → Run (B × Call T C))
      → Ends Mid m
      → ((a : A) (c : Call T C) → Mid a c → Ends Post (f a c))
      → Ends Post (continue m f)
  Ends-continue Post Mid (returns (a, c)) f h k = k a c h
  Ends-continue Post Mid (blocked w) f h k = absurd h
  Ends-continue Post Mid out_of_fuel f h k = absurd h

module _ {T C A : Type 0} where
  pub if-Ends :
      (Post : A → Call T C → Type 0) (test : Bool) (yes_run no_run : Call T C → Run (A × Call T C))
      (c : Call T C)
      → (test ≡ true → Ends Post (yes_run c))
      → (test ≡ false → Ends Post (no_run c))
      → Ends Post ((if test then yes_run else no_run) c)
  if-Ends Post true yes_run no_run c h k = h refl
  if-Ends Post false yes_run no_run c h k = k refl

module _ {T C A : Type 0} where
  pub Ends-weaken :
      (Post Mid : A → Call T C → Type 0) (m : Run (A × Call T C))
      → Ends Mid m
      → ((a : A) (c : Call T C) → Mid a c → Post a c)
      → Ends Post m
  Ends-weaken Post Mid (returns (a, c)) h k = k a c h
  Ends-weaken Post Mid (blocked w) h k = absurd h
  Ends-weaken Post Mid out_of_fuel h k = absurd h
