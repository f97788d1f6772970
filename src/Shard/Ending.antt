-- ===== src/Shard/Ending.antt =====
-- QueryStream (src/service/mtdd_shard_service.cpp) comes to an end, with the query released and the
-- chunks in order.
use mtdd_server.Base.{Bool}
use mtdd_server.Base.{Bytes}
use mtdd_server.Base.{
  ℕ, zero, suc, ◌<◌, false, not, ◌&&◌, Option, none, some, codes, is_empty, ◌≡◌, sym, subst, arith,
}
use mtdd_server.Base.Int.{pos}
use mtdd_server.Pg.Libpq.{PgResult}
use mtdd_server.Pg.Stream.State.{Outcome, done, stuck}
use mtdd_server.Codec.FlexMeta.{Flex}
use mtdd_server.Codec.RawBatch.{encode_raw_pg_batch}
use mtdd_server.Shard.Chunks.{
  Status, cancelled, Client, Query, Call, Run, continue, pure, lift, lifted, is_cancelled,
}
use mtdd_server.Shard.Loop.{
  Loop, returned, Flow, goes_on, breaks, leaves, message_meta, final_trailer, fail,
}
use mtdd_server.Shard.Rounds.{on_fetch, round, the_end, finish, settle, after_round, stream_rows}
use mtdd_server.Shard.Contract.{Contract, Fetched, phase_of, Ends, Ends-continue, if-Ends}
use mtdd_server.Shard.Writes.{Follows, not_none}
use mtdd_server.Shard.Exits.{Concluded, Left, lifted-Ends, fail-Ends, complete-Ends, settle-Ends}
use mtdd_server.Shard.Protocol.{
  InLoop, rounds_left, Rounded, encoded-Ends, on_result-Ends, left-Ends,
}

module _ {T C : Type 0} (query : Query T) (client : Client C) (serialize : Flex → Bytes) (wire : ℕ)
    (Inv : T → Type 0) (Released : Bool → T → Type 0) (left : T → ℕ)
    (contract : Contract query Inv Released left)
    (nonempty : (tree : Flex) → is_empty (serialize tree) ≡ false) (progress : 0 < wire) where
  -- Behind Fetch, from the contract.
  outcome-Ends :
      (l : Loop) (c : Call T C) (o : Outcome (Option PgResult × T))
      → Fetched Inv left (left c.query) o
      → Follows l.batch_sent c
      → Ends
          (Rounded Inv Released left (rounds_left Inv Released left l c))
          (continue (lifted c o) (λ result. on_fetch query client serialize wire result l))
  unfolding on_fetch
  outcome-Ends l c (done (none, t)) h f =
      let n = rounds_left Inv Released left l c in
      let d = record c { query = t } in
      if-Ends (Rounded Inv Released left n) (is_empty (query.exec_error t)) _ _ d (λ e. (h, f))
        (λ e.
          left-Ends query client serialize wire Inv Released left contract nonempty progress n
            (fail query client serialize (message_meta (query.exec_error t)) d)
            (fail-Ends query client serialize Inv Released left contract nonempty
              (message_meta (query.exec_error t)) l.batch_sent d h f))
  outcome-Ends l c (done (some result, t)) h f =
      let k = contract.clears l.last_result t h.0 in
      on_result-Ends query client serialize wire Inv Released left contract nonempty progress
        (rounds_left Inv Released left l c) result (record l { last_result = some result })
        (record c { query = query.clear l.last_result t }) (k.0, f) (omega (arith, k.1, h.1))
        (λ e. omega (arith, k.1, h.2 e))
  outcome-Ends l c (stuck w) h f = absurd h

  round-Ends :
      (l : Loop) (c : Call T C)
      → InLoop Inv Released left l c
      → Ends
          (Rounded Inv Released left (rounds_left Inv Released left l c))
          (round query client serialize wire l c)
  unfolding round is_cancelled
  round-Ends l c i =
      let n = rounds_left Inv Released left l c in
      let d = record c { client = (client.is_cancelled c.client).1 } in
      if-Ends (Rounded Inv Released left n) (client.is_cancelled c.client).0 _ _ d
        (λ e.
          Ends-continue (Rounded Inv Released left n)
            (λ _ c'. Released false c'.query × (c'.written ≡ d.written)) (lift query.abort d)
            (λ _. pure (leaves (returned (cancelled (codes "cancelled")))))
            (lifted-Ends (Released false) d (query.abort c.query) (contract.aborts c.query i.0))
            (λ _ c' h. (
              h.0,
              λ none_left.
                  not_none client serialize l.batch_sent d i.1
                    (subst (λ w. phase_of w ≡ none) h.1 none_left),
            )))
        (λ e. outcome-Ends l d (query.fetch c.query) (contract.fetches c.query i.0) i.1)

  finish-Ends :
      (l : Loop) (c : Call T C)
      → InLoop Inv Released left l c
      → Ends (Left Inv Released) (finish query client serialize l c)
  unfolding finish
  finish-Ends l c i =
      if-Ends (Left Inv Released) (l.schema_open && not l.batch_sent) _ _ c
        (λ e.
          encoded-Ends query client serialize Inv Released left contract nonempty
            (Left Inv Released) (λ exit. exit) (the_end query client serialize) 0 l
            (encode_raw_pg_batch l.last_result (pos 0) (pos 0)) c (λ exit d h. h)
            (λ total sent d q f.
              complete-Ends query client serialize Inv Released left contract nonempty
                (final_trailer (record l { total_rows = total; batch_sent = sent })) l.last_result
                sent d (subst Inv (sym q) i.0) f)
            i.0 i.1)
        (λ e.
          complete-Ends query client serialize Inv Released left contract nonempty (final_trailer l)
            l.last_result l.batch_sent c i.0 i.1)

  after_round-Ends :
      (n : ℕ) (rest : Loop → Call T C → Run (Status × Call T C)) (flow : Flow) (c : Call T C)
      → ((l : Loop) (d : Call T C)
          → InLoop Inv Released left l d
          → rounds_left Inv Released left l d < n
          → Ends (Concluded Released) (rest l d))
      → Rounded Inv Released left n flow c
      → Ends (Concluded Released) (after_round query client serialize wire rest flow c)
  after_round-Ends n rest (goes_on l) c go h = go l c h.0 h.1
  after_round-Ends n rest (breaks l) c go h =
      Ends-continue (Concluded Released) (Left Inv Released) (finish query client serialize l c)
        (settle query client serialize) (finish-Ends l c h)
        (settle-Ends query client serialize Inv Released left contract nonempty)
  after_round-Ends n rest (leaves exit) c go h =
      settle-Ends query client serialize Inv Released left contract nonempty exit c h

  pub stream_rows-Ends :
      (fuel : ℕ) (l : Loop) (c : Call T C)
      → InLoop Inv Released left l c
      → rounds_left Inv Released left l c < fuel
      → Ends (Concluded Released) (stream_rows query client serialize wire fuel l c)
  unfolding stream_rows
  stream_rows-Ends zero l c i m = absurd (omega arith)
  stream_rows-Ends (suc fuel) l c i m =
      Ends-continue (Concluded Released)
        (Rounded Inv Released left (rounds_left Inv Released left l c))
        (round query client serialize wire l c)
        (after_round query client serialize wire (stream_rows query client serialize wire fuel))
        (round-Ends l c i)
        (λ flow d h.
          after_round-Ends (rounds_left Inv Released left l c)
            (stream_rows query client serialize wire fuel) flow d
            (λ l' e j k. stream_rows-Ends fuel l' e j (omega arith)) h)
