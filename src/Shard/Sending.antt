-- ===== src/Shard/Sending.antt =====
-- The statements with which Open of StreamingQuery (src/pg/streaming_query.cpp) starts a query on
-- the connection that it has, where it returns true.
use mtdd_server.Base.{arith}
pub mod Immediate
use mathlib.Core.List.{append_assoc, append-nil}
use mtdd_server.Base.{
  ℕ, suc, Bytes, codes, Bool, true, false, Option, none, some, List, [], ◌∷◌, ◌++◌, if◌then◌else◌,
  contains, ℕ_discrete, erase, Bool-cases, inl, inr, ◌≡◌, refl, ap, ◌∙◌, sym, subst,
}
use mtdd_server.Pg.Libpq.{Libpq, PgResult, TransactionStatus}
use mtdd_server.Pg.Conn
use mtdd_server.Pg.Conn.{World, exec, exec_params, is_command_ok}
use mtdd_server.Pg.Stream.Request.{QueryRequest, build_params, result_format_flag}
use mtdd_server.Pg.Stream.State.{
  State, Outcome, done, stuck, continue, pure, with_lock, unlock, result_status, result_error,
  cursor_name_of, is_ok_status, accept,
}
use mtdd_server.Pg.Stream.Cursor.{
  begin_in, begun, begin_if_needed, declared, declare_cursor, open_cursor, end_transaction,
}
use mtdd_server.Pg.Stream.Query.{execute_immediate, keep_immediate, start}
use mtdd_server.Pg.Stream.Steps.{erased, exec-sent, exec_params-sent, clear-sent}
use mtdd_server.Shard.Start.{Goes, Goes-continue, Goes-weaken, fails}

abbrev pub is_idle : TransactionStatus → Bool
is_idle TransactionStatus.idle = true
is_idle _ = false

abbrev pub begin_statement : Bool → List Bytes
begin_statement true = codes "BEGIN" ∷ []
begin_statement false = []

abbrev pub declare_statement : Bytes → Bytes → Bytes
declare_statement name text = codes "DECLARE " ++ name ++ codes " NO SCROLL CURSOR FOR " ++ text

-- What is sent to start a query: a transaction if none is there, and the cursor; or the query.
abbrev pub opening : Bool → Bool → Bytes → Bytes → List Bytes
opening true begins name text = begin_statement begins ++ declare_statement name text ∷ []
opening false begins name text = text ∷ []

module _ {S : Type 0} where
  -- What the start of a query leaves alone.
  abbrev pub SameLease : State S → State S → Type 0
  SameLease s t =
      (t.connection_ ≡ s.connection_)
      × (t.locked ≡ s.locked)
      × (t.pool ≡ s.pool)
      × (t.pooled ≡ s.pooled)
      × (t.sessions ≡ s.sessions)
      × (t.use_cursor ≡ s.use_cursor)

  same : (s : State S) → SameLease s s
  same s = (refl, refl, refl, refl, refl, refl)

  abbrev Begun : State S → Bool → State S → Type 0
  Begun s begins t =
      SameLease s t
      × (t.started_local_txn ≡ begins)
      × (t.cursor_counter ≡ s.cursor_counter)
      × (t.world.sent ≡ s.world.sent ++ begin_statement begins)

  abbrev Declared : State S → Bytes → State S → Type 0
  Declared s text t =
      SameLease s t
      × (t.started_local_txn ≡ s.started_local_txn)
      × (t.cursor_open ≡ true)
      × (t.cursor_name ≡ cursor_name_of s.cursor_counter)
      × (t.world.sent
          ≡ s.world.sent ++ declare_statement (cursor_name_of s.cursor_counter) text ∷ [])

  -- The query was started, on a connection whose transaction is idle or not.
  abbrev pub Started : State S → QueryRequest → Bool → State S → Type 0
  Started s request begins t =
      SameLease s t
      × (t.started_local_txn ≡ (if s.use_cursor then begins else false))
      × (t.cursor_open ≡ s.use_cursor)
      × (t.world.sent
          ≡ s.world.sent
            ++ opening s.use_cursor begins (cursor_name_of s.cursor_counter) request.text)
      × (t.cursor_name ≡ (if s.use_cursor then cursor_name_of s.cursor_counter else s.cursor_name))

module _ {S : Type 0} (conn : ℕ) where
  -- A query that has its connection, and has sent nothing on it.
  abbrev pub IsFresh : State S → Type 0
  IsFresh s =
      (s.connection_ ≡ some conn)
      × (contains ℕ_discrete conn s.locked ≡ false)
      × (s.cursor_open ≡ false)
      × (s.started_local_txn ≡ false)

module _ {S : Type 0} (pq : Libpq S) (conn : ℕ) where
  -- The mutex is given back.
  pub unlocked-SameLease :
      (s : State S)
      → contains ℕ_discrete conn s.locked ≡ false
      → SameLease s (record s { locked = erase ℕ_discrete conn (conn ∷ s.locked) })
  unlocked-SameLease s free =
      (refl, erased pq conn s.locked (conn ∷ s.locked) free refl, refl, refl, refl, refl)

  begun-Begun :
      (result : Option PgResult) (s : State S) (w : World S)
      → contains ℕ_discrete conn s.locked ≡ false
      → w.sent ≡ s.world.sent ++ codes "BEGIN" ∷ []
      → Goes
          (Begun s true)
          (unlock conn (begun pq result (record s { locked = conn ∷ s.locked; world = w })))
  begun-Begun result s w free e = elim (Bool-cases (is_command_ok (result_status result))) [
    | inl ok ↦ rw ok (unlocked-SameLease s free, refl, refl, clear-sent pq result w ∙ e)
    | inr refused ↦ rw refused tt
  ]

  begin_in-Begun :
      (status : TransactionStatus) (s : State S)
      → contains ℕ_discrete conn s.locked ≡ false
      → s.started_local_txn ≡ false
      → Goes
          (Begun s (is_idle status))
          (unlock conn (begin_in pq conn status (record s { locked = conn ∷ s.locked })))
  begin_in-Begun TransactionStatus.idle s free n =
      begun-Begun (exec pq conn (codes "BEGIN") s.world).0 s
        (exec pq conn (codes "BEGIN") s.world).1 free (exec-sent pq conn (codes "BEGIN") s.world)
  begin_in-Begun TransactionStatus.in_error s free n = tt
  begin_in-Begun TransactionStatus.active s free n =
      (unlocked-SameLease s free, n, refl, sym (append-nil s.world.sent))
  begin_in-Begun TransactionStatus.in_transaction s free n =
      (unlocked-SameLease s free, n, refl, sym (append-nil s.world.sent))
  begin_in-Begun TransactionStatus.unknown s free n =
      (unlocked-SameLease s free, n, refl, sym (append-nil s.world.sent))

  begin_if_needed-Begun :
      (s : State S)
      → contains ℕ_discrete conn s.locked ≡ false
      → s.started_local_txn ≡ false
      → Goes
          (Begun s (is_idle (pq.transaction_status conn s.world.server)))
          (begin_if_needed pq conn s)
  unfolding begin_if_needed with_lock
  begin_if_needed-Begun s free n =
      rw free (begin_in-Begun (pq.transaction_status conn s.world.server) s free n)

  declared-Declared :
      (request : QueryRequest) (result : Option PgResult) (s : State S) (w : World S)
      → contains ℕ_discrete conn s.locked ≡ false
      → w.sent
        ≡ s.world.sent ++ declare_statement (cursor_name_of s.cursor_counter) request.text ∷ []
      → Goes (Declared s request.text) (
          unlock conn (
            declared pq result (record s {
              cursor_name = cursor_name_of s.cursor_counter;
              cursor_counter = suc s.cursor_counter;
              locked = conn ∷ s.locked;
              world = w;
            })))
  unfolding declared
  declared-Declared request result s w free e =
      elim (Bool-cases (is_command_ok (result_status result))) [
        | inl ok ↦ rw ok (unlocked-SameLease s free, refl, refl, refl, clear-sent pq result w ∙ e)
        | inr refused ↦ rw refused (
            fails (Declared s request.text) conn (
              end_transaction pq false (record s {
                cursor_name = cursor_name_of s.cursor_counter;
                cursor_counter = suc s.cursor_counter;
                locked = conn ∷ s.locked;
                world = Conn.clear pq result w;
                error = result_error result;
              })))
      ]

  declare_cursor-Declared :
      (request : QueryRequest) (s : State S)
      → contains ℕ_discrete conn s.locked ≡ false
      → Goes (Declared s request.text) (declare_cursor pq request conn s)
  unfolding declare_cursor with_lock
  declare_cursor-Declared request s free =
      let sql = declare_statement (cursor_name_of s.cursor_counter) request.text in
      let held =
        exec_params pq conn sql (build_params request) (result_format_flag request) s.world in
      rw free (
        declared-Declared request held.0 s held.1 free (
          exec_params-sent pq conn sql (build_params request) (result_format_flag request) s.world))

  cursor-Started :
      (request : QueryRequest) (begins : Bool) (s t u : State S)
      → s.use_cursor ≡ true
      → Begun s begins t
      → Declared t request.text u
      → Started s request begins u
  cursor-Started request begins s t u c b d = ground (
    arith,
    append_assoc s.world.sent (begin_statement begins)
        (declare_statement (cursor_name_of s.cursor_counter) request.text ∷ []),
  )

  pub open_cursor-Started :
      (request : QueryRequest) (s : State S)
      → s.use_cursor ≡ true
      → contains ℕ_discrete conn s.locked ≡ false
      → s.started_local_txn ≡ false
      → Goes
          (Started s request (is_idle (pq.transaction_status conn s.world.server)))
          (open_cursor pq request conn s)
  unfolding open_cursor
  open_cursor-Started request s c free n =
      let begins = is_idle (pq.transaction_status conn s.world.server) in
      Goes-continue (Started s request begins) (Begun s begins) (begin_if_needed pq conn s)
        (λ begin. if begin then declare_cursor pq request conn else pure false)
        (begin_if_needed-Begun s free n)
        (λ t b.
          Goes-weaken (Started s request begins) (Declared t request.text)
            (declare_cursor pq request conn t)
            (declare_cursor-Declared request t
              (subst (λ l. contains ℕ_discrete conn l ≡ false) (sym b.0.1) free))
            (λ u d. cursor-Started request begins s t u c b d))
        (λ t. tt)
