-- ===== src/Shard/Protocol.antt =====
-- The rounds of QueryStream (src/service/mtdd_shard_service.cpp): each keeps the chunks in order and
-- brings the loop nearer to its end.
use mtdd_server.Shard.Chunks.{Run}
use mtdd_server.Base.{
  ℕ, zero, suc, ◌+◌, ◌-◌, ◌<◌, ◌≤◌, Bytes, Bool, true, false, not, ◌&&◌, some, is_empty, ltb, ◌==◌,
  min, Bool-cases, inl, inr, ◌≡◌, ◌≢◌, sym, subst, arith,
}
use mtdd_server.Base.Int.{pos}
use mtdd_server.Base.Results.{Result, ok, throw}
use mtdd_server.Pg.Libpq.{PgResult}
use mtdd_server.Pg.Executor.{extract_pg_error}
use mtdd_server.Codec.FlexMeta.{Flex}
use mtdd_server.Codec.QueryMeta.{build_command_trailer}
use mtdd_server.Codec.RawBatch.{encode_raw_pg_batch}
use mtdd_server.Shard.Chunks.{Client, Query, Call, Run, continue, pure, send_batch_chunk}
use mtdd_server.Shard.Loop.{
  Loop, Exit, throws, Flow, goes_on, breaks, leaves, is_expected, open_schema, refused, fail,
  complete, encoded, sent_batch,
}
use mtdd_server.Shard.Rounds.{send_batches, on_rows, on_result}
use mtdd_server.Shard.Contract.{Contract, Ends, Ends-continue, if-Ends}
use mtdd_server.Shard.Writes.{Follows, Sent, send_batch_chunk-Ends}
use mtdd_server.Shard.Exits.{Left, refused-Ends, fail-Ends, complete-Ends}

abbrev pub unopened : Bool → ℕ
unopened true = 0
unopened false = 1

module _ {T C : Type 0} (Inv : T → Type 0) (Released : Bool → T → Type 0) (left : T → ℕ) where
  abbrev pub InLoop : Loop → Call T C → Type 0
  InLoop l c = Inv c.query × Follows l.batch_sent c

  -- How many rounds may follow.
  abbrev pub rounds_left : Loop → Call T C → ℕ
  rounds_left l c = left c.query + unopened l.schema_open

  -- Behind a round that began with `n` rounds left.
  abbrev pub Rounded : ℕ → Flow → Call T C → Type 0
  Rounded n (goes_on l) c = InLoop l c × (rounds_left l c < n)
  Rounded n (breaks l) c = InLoop l c
  Rounded n (leaves exit) c = Left Inv Released exit c

module _ {T C B : Type 0} (query : Query T) (client : Client C) (serialize : Flex → Bytes)
    (Inv : T → Type 0) (Released : Bool → T → Type 0) (left : T → ℕ)
    (contract : Contract query Inv Released left)
    (nonempty : (tree : Flex) → is_empty (serialize tree) ≡ false) where
  sent_batch-Ends :
      (Post : B → Call T C → Type 0) (leave : Exit → B)
      (next : Loop → Call T C → Run (B × Call T C)) (l : Loop) (answer : Bool × Bool)
      (c c' : Call T C)
      → ((e : Exit) (d : Call T C) → Left Inv Released e d → Post (leave e) d)
      → ((sent : Bool) (d : Call T C)
          → d.query ≡ c.query
          → Follows sent d
          → Ends Post (next (record l { batch_sent = sent }) d))
      → Inv c.query
      → Sent c answer c'
      → Ends Post (sent_batch query client serialize leave next l answer c')
  sent_batch-Ends Post leave next l (true, sent) c c' on_leave on_next i h = on_next sent c' h.0 h.1
  sent_batch-Ends Post leave next l (false, sent) c c' on_leave on_next i h =
      Ends-continue Post (Left Inv Released) (refused query client c') (λ exit. pure (leave exit))
        (refused-Ends query client serialize Inv Released left contract nonempty c'
          (subst Inv (sym h.0) i) h.1)
        on_leave

  pub encoded-Ends :
      (Post : B → Call T C → Type 0) (leave : Exit → B)
      (next : Loop → Call T C → Run (B × Call T C)) (rows : ℕ) (l : Loop) (payload : Result Bytes)
      (c : Call T C)
      → ((e : Exit) (d : Call T C) → Left Inv Released e d → Post (leave e) d)
      → ((total : ℕ) (sent : Bool) (d : Call T C)
          → d.query ≡ c.query
          → Follows sent d
          → Ends Post (next (record l { total_rows = total; batch_sent = sent }) d))
      → Inv c.query
      → Follows l.batch_sent c
      → Ends Post (encoded query client serialize leave next rows l payload c)
  encoded-Ends Post leave next rows l (throw what) c on_leave on_next i f =
      on_leave (throws what l) c (i, f)
  encoded-Ends Post leave next rows l (ok payload) c on_leave on_next i f =
      let l' = record l { total_rows = l.total_rows + rows } in
      Ends-continue Post (Sent c)
        (send_batch_chunk client serialize l.schema_meta l.batch_sent payload c)
        (sent_batch query client serialize leave next l')
        (send_batch_chunk-Ends client serialize l.schema_meta l.batch_sent payload c f)
        (λ answer c' h.
          sent_batch-Ends Post leave next l' answer c c' on_leave (on_next (l.total_rows + rows)) i
            h)

module _ {T C : Type 0} (query : Query T) (client : Client C) (serialize : Flex → Bytes) (wire : ℕ)
    (Inv : T → Type 0) (Released : Bool → T → Type 0) (left : T → ℕ)
    (contract : Contract query Inv Released left)
    (nonempty : (tree : Flex) → is_empty (serialize tree) ≡ false) (progress : 0 < wire) where
  send_batches-Ends :
      (fuel n : ℕ) (result : PgResult) (l : Loop) (row_begin : ℕ) (c : Call T C)
      → 0 < fuel
      → result.num_rows < row_begin + fuel
      → InLoop Inv Released left l c
      → rounds_left Inv Released left l c < n
      → Ends
          (Rounded Inv Released left n)
          (send_batches query client serialize wire fuel result l row_begin c)
  unfolding send_batches
  send_batches-Ends zero n result l row_begin c enough rows i m = absurd (omega arith)
  send_batches-Ends (suc fuel) n result l row_begin c enough rows i m =
      elim (Bool-cases (ltb row_begin result.num_rows)) [
        | inl e ↦ rw e (
            encoded-Ends query client serialize Inv Released left contract nonempty
              (Rounded Inv Released left n) leaves
              (λ l'. send_batches query client serialize wire fuel result l' (row_begin + wire))
              (min (row_begin + wire) result.num_rows - row_begin) l
              (encode_raw_pg_batch (some result) (pos row_begin)
                (pos (min (row_begin + wire) result.num_rows)))
              c (λ exit d h. h)
              (λ total sent d q f.
                send_batches-Ends fuel n result (record l { total_rows = total; batch_sent = sent })
                  (row_begin + wire) d (ground arith) (ground arith) (subst Inv (sym q) i.0, f)
                  (subst (λ t. left t + unopened l.schema_open < n) (sym q) m))
              i.0 i.1)
        | inr e ↦ rw e (i, m)
      ]

  -- The variables behind `if (!schema_open)`.
  opened : (result : PgResult) (l : Loop) → (open_schema result l).schema_open ≡ true
  opened result l = ground arith

  kept : (result : PgResult) (l : Loop) → (open_schema result l).batch_sent ≡ l.batch_sent
  kept result l = ground arith

  on_rows-Ends :
      (n : ℕ) (result : PgResult) (l : Loop) (c : Call T C)
      → InLoop Inv Released left l c
      → rounds_left Inv Released left l c < n
      → Ends (Rounded Inv Released left n) (on_rows query client serialize wire result l c)
  on_rows-Ends n result l c i m =
      if-Ends (Rounded Inv Released left n) (result.num_rows == 0) (pure (goes_on l))
        (send_batches query client serialize wire (suc result.num_rows) result l 0) c (λ e. (i, m))
        (λ e.
          send_batches-Ends (suc result.num_rows) n result l 0 c (omega arith) (omega arith) i m)

  -- A way out ends the round.
  pub left-Ends :
      (n : ℕ) (m : Run (Exit × Call T C))
      → Ends (Left Inv Released) m
      → Ends (Rounded Inv Released left n) (continue m (λ exit. pure (leaves exit)))
  left-Ends n m h =
      Ends-continue (Rounded Inv Released left n) (Left Inv Released) m (λ exit. pure (leaves exit))
        h (λ exit c k. k)

  some_rows :
      (n : ℕ) (result : PgResult) (l : Loop) (c : Call T C)
      → left c.query + unopened l.schema_open ≤ n
      → (result.num_rows ≢ 0 → left c.query + unopened l.schema_open < n)
      → (result.num_rows == 0) && l.schema_open ≡ false
      → rounds_left Inv Released left (open_schema result l) c < n
  some_rows n result l c m r e = ground (arith, r)

  pub on_result-Ends :
      (n : ℕ) (result : PgResult) (l : Loop) (c : Call T C)
      → InLoop Inv Released left l c
      → left c.query + unopened l.schema_open ≤ n
      → (result.num_rows ≢ 0 → left c.query + unopened l.schema_open < n)
      → Ends (Rounded Inv Released left n) (on_result query client serialize wire result l c)
  unfolding on_result
  on_result-Ends n result l c i m r =
      if-Ends (Rounded Inv Released left n) (not (is_expected result.status)) _ _ c
        (λ e. left-Ends n (fail query client serialize (extract_pg_error (some result)) c) (
          fail-Ends query client serialize Inv Released left contract nonempty
            (extract_pg_error (some result)) l.batch_sent c i.0 i.1))
        (λ e.
          if-Ends (Rounded Inv Released left n) (result.num_fields == 0) _ _ c
            (λ f.
              left-Ends n
                (complete query client serialize (build_command_trailer result) (some result) c)
                (complete-Ends query client serialize Inv Released left contract nonempty
                  (build_command_trailer result) (some result) l.batch_sent c i.0 i.1))
            (λ f.
              if-Ends (Rounded Inv Released left n) ((result.num_rows == 0) && l.schema_open) _ _ c
                (λ g. i)
                (λ g.
                  on_rows-Ends n result (open_schema result l) c
                    (i.0, subst (λ sent. Follows sent c) (sym (kept result l)) i.1)
                    (some_rows n result l c m r g))))
