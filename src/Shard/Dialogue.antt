-- ===== src/Shard/Dialogue.antt =====
-- The statements that a query of QueryStream (src/service/mtdd_shard_service.cpp) sends on its
-- connection, from its start to its end.
use mathlib.Core.List.{append_assoc, append-nil}
use mtdd_server.Base.{ℕ, Bytes, codes, Bool, true, false, List, [], ◌∷◌, ◌++◌, ◌≡◌, refl, ap, ◌∙◌}
use mtdd_server.Base.Int.{ℤ}
use mtdd_server.Pg.Stream.Request.{QueryRequest}
use mtdd_server.Pg.Stream.State.{State, cursor_name_of}
use mtdd_server.Pg.Stream.Steps.{close_statement, end_statement}
use mtdd_server.Pg.Stream.End.{cleanup}
use mtdd_server.Shard.Streaming.{fetch_statement, fetch_statements, repeated}
use mtdd_server.Shard.Sending.{begin_statement, declare_statement, Started}

-- What a query sends on its connection: with a cursor, a transaction if none is there, the cursor,
-- the fetches, and the ends of both; without one, the query.
abbrev pub dialogue : Bool → Bool → Bool → ℤ → Bytes → Bytes → ℕ → List Bytes
dialogue true begins commits fetch_size name text k =
    begin_statement begins
    ++ declare_statement name text
      ∷ (repeated k (fetch_statement fetch_size name)
          ++ (codes "CLOSE " ++ name) ∷ end_statement commits begins)
dialogue false begins commits fetch_size name text k = text ∷ []

-- What follows the start, by the members that it depends on.
abbrev rest : Bool → Bool → ℤ → ℕ → Bytes → Bool → Bool → List Bytes
rest use_cursor commits fetch_size k name cursor_open began =
    fetch_statements fetch_size use_cursor name k
    ++ (close_statement cursor_open name ++ end_statement commits began)

rest_equal :
    (use_cursor commits : Bool) (fetch_size : ℤ) (k : ℕ) (n n' : Bytes) (o o' b b' : Bool)
    → n ≡ n'
    → o ≡ o'
    → b ≡ b'
    → rest use_cursor commits fetch_size k n o b ≡ rest use_cursor commits fetch_size k n' o' b'
rest_equal use_cursor commits fetch_size k n n' o o' b b' p q r =
    ap (λ x. rest use_cursor commits fetch_size k x o b) p
    ∙ ap (λ x. rest use_cursor commits fetch_size k n' x b) q
    ∙ ap (rest use_cursor commits fetch_size k n' o') r

regroup :
    (x b r now sent : List Bytes) (d : Bytes)
    → now ≡ x ++ (b ++ d ∷ [])
    → sent ≡ now ++ r
    → sent ≡ x ++ (b ++ d ∷ r)
regroup x b r now sent d e f =
    f
    ∙ ap (λ l. l ++ r) e
    ∙ append_assoc x (b ++ d ∷ []) r
    ∙ ap (◌++◌ x) (append_assoc b (d ∷ []) r)

module _ {S : Type 0} where
  -- The statements of the end stand behind those of the start.
  pub dialogue-Started :
      (use_cursor commits begins : Bool) (fetch_size : ℤ) (k : ℕ) (request : QueryRequest)
      (a q : State S) (sent : List Bytes)
      → Started (record a { use_cursor = use_cursor }) request begins q
      → sent
        ≡ q.world.sent
          ++ (fetch_statements fetch_size use_cursor q.cursor_name k ++ cleanup commits q)
      → sent
        ≡ a.world.sent
          ++ dialogue use_cursor begins commits fetch_size
              (cursor_name_of a.cursor_counter)
              request.text
              k
  dialogue-Started true commits begins fetch_size k request a q sent h e =
      let name = cursor_name_of a.cursor_counter in
      regroup a.world.sent (begin_statement begins)
        (rest true commits fetch_size k name true begins) q.world.sent sent
        (declare_statement name request.text) h.3
        (e
          ∙ ap (◌++◌ q.world.sent) (
              rest_equal true commits fetch_size k q.cursor_name name q.cursor_open true
                q.started_local_txn begins h.4 h.2 h.1))
  dialogue-Started false commits begins fetch_size k request a q sent h e =
      e
      ∙ ap (◌++◌ q.world.sent) (
          rest_equal false commits fetch_size k q.cursor_name q.cursor_name q.cursor_open false
            q.started_local_txn false refl h.2 h.1)
      ∙ append-nil q.world.sent
      ∙ h.3
