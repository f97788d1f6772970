-- ===== src/Shard/Exits.antt =====
-- The ways in which QueryStream (src/service/mtdd_shard_service.cpp) leaves its loop: each releases
-- the query and leaves the reader where the status says.
use mtdd_server.Base.{ℕ, inl, inr, ◌⊎◌}
use mtdd_server.Base.{
  Bytes, codes, Bool, true, false, Option, none, some, [], if◌then◌else◌, is_empty, ◌≡◌, ◌≢◌, refl,
  ap, ◌∙◌, sym, subst,
}
use mtdd_server.Pg.Stream.State.{Outcome, done, stuck}
use mtdd_server.Pg.Executor.{PgErrorMeta}
use mtdd_server.Pg.Libpq.{PgResult}
use mtdd_server.Codec.FlexMeta.{Flex, ResultTrailer, encode_result_trailer}
use mtdd_server.Shard.Chunks.{
  Status, status_ok, cancelled, Client, Query, Call, ◌>>◌, pure, lift, lifted, is_cancelled, write,
  write_result_chunk, write_error_chunk, trailer, error,
}
use mtdd_server.Shard.Loop.{Exit, returned, throws, message_meta, refused, fail, complete, clear}
use mtdd_server.Shard.Rounds.{settle}
use mtdd_server.Shard.Contract.{
  Contract, Finished, completed, failed, advance_option, phase_of, phase_of-append, Ends,
  Ends-continue,
}
use mtdd_server.Shard.Writes.{expected, Follows, write_result_chunk-Ends}

over_next : (sent : Bool) → advance_option (some (expected sent)) trailer ≡ some completed
over_next true = refl
over_next false = refl

module _ {T C : Type 0} (Released : Bool → T → Type 0) where
  -- What holds at a `return`.
  abbrev pub Concluded : Status → Call T C → Type 0
  Concluded status_ok c =
      (Released true c.query × (phase_of c.written ≡ some completed))
      ⊎ (Released false c.query × (phase_of c.written ≡ some failed))
  Concluded (cancelled m) c = Released false c.query × (phase_of c.written ≢ none)
  Concluded _ c = ⊥

module _ {T C : Type 0} (Inv : T → Type 0) (Released : Bool → T → Type 0) where
  -- What holds where the `try` block is left.
  abbrev pub Left : Exit → Call T C → Type 0
  Left (returned reply) c = Concluded Released reply c
  Left (throws what l) c = Inv c.query × Follows l.batch_sent c

module _ {T C : Type 0} (Released : T → Type 0) where
  pub lifted-Ends :
      (c : Call T C) (o : Outcome (Unit {0} × T))
      → Finished Released o
      → Ends (λ _ c'. Released c'.query × (c'.written ≡ c.written)) (lifted c o)
  lifted-Ends c (done (_, t)) h = (h, refl)
  lifted-Ends c (stuck w) h = absurd h

module _ {T C : Type 0} (client : Client C) (serialize : Flex → Bytes) where
  write_error_chunk-Ends :
      (meta : PgErrorMeta) (sent : Bool) (c : Call T C)
      → Follows sent c
      → Ends
          (λ _ c'. (c'.query ≡ c.query) × (phase_of c'.written ≡ some failed))
          (write_error_chunk client serialize meta c)
  unfolding write_error_chunk write
  write_error_chunk-Ends meta true c f =
      (refl, phase_of-append c.written _ ∙ ap (λ q. advance_option q error) f)
  write_error_chunk-Ends meta false c f =
      (refl, phase_of-append c.written _ ∙ ap (λ q. advance_option q error) f)

module _ {T C : Type 0} (query : Query T) (client : Client C) (serialize : Flex → Bytes)
    (Inv : T → Type 0) (Released : Bool → T → Type 0) (left : T → ℕ)
    (contract : Contract query Inv Released left)
    (nonempty : (tree : Flex) → is_empty (serialize tree) ≡ false) where
  abbrev Gone : Bool → Call T C → Unit {0} → Call T C → Type 0
  Gone commit c _ c' = Released commit c'.query × (c'.written ≡ c.written)

  aborted : (c : Call T C) → Inv c.query → Ends (Gone false c) (lift query.abort c)
  aborted c i = lifted-Ends (Released false) c (query.abort c.query) (contract.aborts c.query i)

  closed : (c : Call T C) → Inv c.query → Ends (Gone true c) (lift query.close c)
  closed c i = lifted-Ends (Released true) c (query.close c.query) (contract.closes c.query i)

  -- The ends by CANCELLED.
  pub give_up-Ends :
      (message : Bytes) (c : Call T C)
      → Inv c.query
      → phase_of c.written ≢ none
      → Ends (Left Inv Released) ((do lift query.abort; pure (returned (cancelled message))) c)
  give_up-Ends message c i p =
      Ends-continue (Left Inv Released) (Gone false c) (lift query.abort c)
        (λ _ c'. pure (returned (cancelled message)) c') (aborted c i)
        (λ _ c' h. (h.0, λ e. p (subst (λ w. phase_of w ≡ none) h.1 e)))

  pub refused-Ends :
      (c : Call T C)
      → Inv c.query
      → phase_of c.written ≢ none
      → Ends (Left Inv Released) (refused query client c)
  unfolding refused is_cancelled
  refused-Ends c i p =
      Ends-continue (Left Inv Released) (Gone false c) (lift query.abort c) _ (aborted c i)
        (λ _ c' h. (h.0, λ e. p (subst (λ w. phase_of w ≡ none) h.1 e)))

  pub fail-Ends :
      (meta : PgErrorMeta) (sent : Bool) (c : Call T C)
      → Inv c.query
      → Follows sent c
      → Ends (Left Inv Released) (fail query client serialize meta c)
  unfolding fail
  fail-Ends meta sent c i f =
      Ends-continue (Left Inv Released)
        (λ _ c'. (c'.query ≡ c.query) × (phase_of c'.written ≡ some failed))
        (write_error_chunk client serialize meta c)
        (λ _. lift query.abort >> pure (returned status_ok))
        (write_error_chunk-Ends client serialize meta sent c f)
        (λ _ c' h.
          Ends-continue (Left Inv Released) (Gone false c') (lift query.abort c')
            (λ _. pure (returned status_ok)) (aborted c' (subst Inv (sym h.0) i))
            (λ _ d k. inr (k.0, subst (λ w. phase_of w ≡ some failed) (sym k.1) h.1)))

  -- The trailer was written, with the answer.
  trailed :
      (accepted : Bool) (held : Option PgResult) (c : Call T C)
      → Inv c.query
      → phase_of c.written ≡ some completed
      → Ends (Left Inv Released) (
          (if accepted
              then (do clear query held; lift query.close; pure (returned status_ok))
              else (do
                lift query.abort
                pure (returned (cancelled (codes "client cancelled stream")))))
            c)
  trailed false held c i p = give_up-Ends (codes "client cancelled stream") c i (λ e. cc)
  trailed true held c i p =
      let c' = record c { query = query.clear held c.query } in
      Ends-continue (Left Inv Released) (Gone true c') (lift query.close c')
        (λ _. pure (returned status_ok)) (closed c' (contract.clears held c.query i).0)
        (λ _ d k. inl (k.0, subst (λ w. phase_of w ≡ some completed) (sym k.1) p))

  pub complete-Ends :
      (last : ResultTrailer) (held : Option PgResult) (sent : Bool) (c : Call T C)
      → Inv c.query
      → Follows sent c
      → Ends (Left Inv Released) (complete query client serialize last held c)
  unfolding complete encode_result_trailer
  complete-Ends last held sent c i f =
      Ends-continue (Left Inv Released)
        (λ _ c'. (c'.query ≡ c.query) × (phase_of c'.written ≡ some completed))
        (write_result_chunk client trailer (encode_result_trailer serialize last) [] c) _
        (subst
          (λ q.
            Ends (λ _ c'. (c'.query ≡ c.query) × (phase_of c'.written ≡ q))
              (write_result_chunk client trailer (encode_result_trailer serialize last) [] c))
          (over_next sent)
          (write_result_chunk-Ends client trailer (encode_result_trailer serialize last) []
            (some (expected sent)) c (nonempty _) f))
        (λ accepted c' h. trailed accepted held c' (subst Inv (sym h.0) i) h.1)

  -- The handler turns every way out into a return.
  pub settle-Ends :
      (exit : Exit) (c : Call T C)
      → Left Inv Released exit c
      → Ends (Concluded Released) (settle query client serialize exit c)
  unfolding settle
  settle-Ends (returned reply) c h = h
  settle-Ends (throws what l) c h =
      let c' = record c { query = query.clear l.last_result c.query } in
      Ends-continue (Concluded Released) (Gone false c') (lift query.abort c')
        (λ _. write_error_chunk client serialize (message_meta what) >> pure status_ok)
        (aborted c' (contract.clears l.last_result c.query h.0).0)
        (λ _ d k.
          Ends-continue (Concluded Released)
            (λ _ e. (e.query ≡ d.query) × (phase_of e.written ≡ some failed))
            (write_error_chunk client serialize (message_meta what) d) (λ _. pure status_ok)
            (write_error_chunk-Ends client serialize (message_meta what) l.batch_sent d
              (subst (λ w. phase_of w ≡ some (expected l.batch_sent)) (sym k.1) h.1))
            (λ _ e m. inr (subst (Released false) (sym m.0) k.0, m.1)))
