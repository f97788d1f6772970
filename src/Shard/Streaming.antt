-- ===== src/Shard/Streaming.antt =====
-- StreamingQuery (src/pg/streaming_query.h) as the query that QueryStream streams.
pub mod Closing
pub mod Keeping
use mtdd_server.Base.{
  ℕ, zero, suc, ◌+◌, ◌<◌, ◌≤◌, Bytes, Bool, true, false, Option, none, some, List, ◌∷◌, erase,
  if◌then◌else◌, contains, ℕ_discrete, Bool-cases, inl, inr, ◌⊎◌, ◌≡◌, ◌≢◌, refl, ap, ◌∙◌, sym,
  subst, arith, codes, ◌++◌, [],
}
use mtdd_server.Base.Int.{ℤ, decrement}
use mtdd_server.Base.Decimal.{to_string_ℤ}
use mtdd_server.Pg.Libpq.{Libpq, PgResult}
use mtdd_server.Pg.Conn.{World, exec, hold, is_tuples_ok}
use mtdd_server.Pg.Conn
use mtdd_server.Pg.Stream.State.{
  State, Outcome, done, stuck, with_lock, unlock, accept, clamp_fetch_size,
}
use mtdd_server.Pg.Stream.Query.{fetch, close, abort}
use mtdd_server.Pg.Stream.Lease.{release_connection}
use mtdd_server.Pg.Stream.Cursor.{fetch_cursor}
use mtdd_server.Pg.Stream.Steps.{Ends, erased}
use mtdd_server.Pg.Stream.End.{cleanup}
use mtdd_server.Shard.Chunks.{Query}
use mtdd_server.Shard.Contract.{Contract, Fetched, Finished}

module _ {S : Type 0} (pq : Libpq S) (fetch_size : ℤ) where
  -- The public members of the class behind Open, and what QueryStream passes them.
  abbrev pub streaming_query : Query (State S)
  streaming_query = record {
    fetch = fetch pq fetch_size;
    close = close pq;
    abort = abort pq;
    exec_error = λ s. s.error;
    clear = λ result s. record s { world = Conn.clear pq result s.world };
  }

module _ {S : Type 0} where
  -- An open query that streams through a cursor, or has its one result.
  abbrev pub IsOpen : ℕ → State S → Type 0
  IsOpen conn s =
      (s.connection_ ≡ some conn)
      × (contains ℕ_discrete conn s.locked ≡ false)
      × ((s.use_cursor ≡ true)
          ⊎ ((s.use_cursor ≡ false) × (s.cursor_open ≡ false) × (s.started_local_txn ≡ false)))

  -- Nothing is kept of the query.
  abbrev pub IsOver : State S → Type 0
  IsOver s =
      (s.connection_ ≡ none)
      × (s.pooled ≡ false)
      × (s.immediate_result ≡ none)
      × (s.cursor_open ≡ false)
      × (s.started_local_txn ≡ false)

abbrev pub fetch_statement : ℤ → Bytes → Bytes
fetch_statement fetch_size name =
    codes "FETCH FORWARD " ++ to_string_ℤ (clamp_fetch_size fetch_size) ++ codes " FROM " ++ name

abbrev pub repeated : ℕ → Bytes → List Bytes
repeated zero sql = []
repeated (suc k) sql = sql ∷ repeated k sql

pub repeated-snoc : (k : ℕ) (sql : Bytes) → repeated k sql ++ sql ∷ [] ≡ repeated (suc k) sql
repeated-snoc zero sql = refl
repeated-snoc (suc k) sql = ap (◌∷◌ sql) (repeated-snoc k sql)

-- What `k` fetches send: a query without a cursor has its one result already.
abbrev pub fetch_statements : ℤ → Bool → Bytes → ℕ → List Bytes
fetch_statements fetch_size true name k = repeated k (fetch_statement fetch_size name)
fetch_statements fetch_size false name k = []

pub fetch_statements-zero :
    (fetch_size : ℤ) (use_cursor : Bool) (name : Bytes)
    → fetch_statements fetch_size use_cursor name 0 ≡ []
fetch_statements-zero fetch_size true name = refl
fetch_statements-zero fetch_size false name = refl

-- The members that change while a query streams.
pub record Moving (S : Type 0) : Type 0 where
  pub world : World S
  pub immediate_result : Option PgResult
  pub immediate_done : Bool
  pub error : Bytes

module _ {S : Type 0} where
  abbrev pub at : State S → Moving S → State S
  at q v = record q {
    world = v.world;
    immediate_result = v.immediate_result;
    immediate_done = v.immediate_done;
    error = v.error;
  }

  abbrev pub moving : State S → Moving S
  moving q = record {
    world = q.world;
    immediate_result = q.immediate_result;
    immediate_done = q.immediate_done;
    error = q.error;
  }

  -- The end of such a query, by Close or by Abort.
  abbrev pub Over : ℤ → State S → Bool → State S → Type 0
  Over fetch_size q commit t =
      IsOver t
      × (t.locked ≡ q.locked)
      × (t.sessions ≡ q.sessions)
      × (t.pool.in_use ≡ (if q.pooled then decrement q.pool.in_use else q.pool.in_use))
      × (k : ℕ) × (t.world.sent
          ≡ q.world.sent
            ++ (fetch_statements fetch_size q.use_cursor q.cursor_name k ++ cleanup commit q))

-- How an answer changes the number of answers with rows that are still to come.
abbrev pub Answered : Option PgResult → ℕ → ℕ → Type 0
Answered none n m = m ≤ n
Answered (some result) n m = (m ≤ n) × (result.num_rows ≢ 0 → m < n)

abbrev pub pending : Option PgResult → ℕ
pending none = 0
pending (some result) = 1

module _ {S : Type 0} (pq : Libpq S) where
  -- The server after `k` times the statement.
  abbrev pub after_fetches : ℕ → Bytes → ℕ → S → S
  after_fetches conn sql zero s = s
  after_fetches conn sql (suc k) s = (pq.exec conn sql (after_fetches conn sql k s)).1

  -- The server after `k` fetches of a query with this connection and this kind.
  abbrev pub server_after : Option ℕ → Bool → Bytes → ℕ → S → S
  server_after (some conn) true sql k s = after_fetches conn sql k s
  server_after (some conn) false sql k s = s
  server_after none use_cursor sql k s = s

  -- A query that was opened as `q`, and has fetched since: it holds what it held then, and nothing
  -- but fetches was sent.
  abbrev pub Streams : ℤ → State S → State S → Type 0
  Streams fetch_size q t =
      (v : Moving S) × (k : ℕ) × (t ≡ at q v)
      × (v.world.sent ≡ q.world.sent ++ fetch_statements fetch_size q.use_cursor q.cursor_name k)
      × (v.world.server
          ≡ server_after q.connection_ q.use_cursor (fetch_statement fetch_size q.cursor_name) k
              q.world.server)

  -- The cursor of an opened query is finite: by the measure `rows`, each of the FETCHes of this
  -- cursor that brings rows leaves fewer to come, and none leaves more. Nothing is asked of other
  -- statements, of other connections, or of a query without a cursor.
  abbrev pub Drains : ℤ → (S → ℕ) → State S → Type 0
  Drains fetch_size rows q =
      (conn k : ℕ)
      → q.connection_ ≡ some conn
      → q.use_cursor ≡ true
      → let sql = fetch_statement fetch_size q.cursor_name in
        let s = after_fetches conn sql k q.world.server in
        Answered (pq.exec conn sql s).0 (rows s) (rows (pq.exec conn sql s).1)

module _ {S : Type 0} (pq : Libpq S) where
  pub unlocked :
      (conn : ℕ) (held : List ℕ)
      → contains ℕ_discrete conn held ≡ false
      → contains ℕ_discrete conn (erase ℕ_discrete conn (conn ∷ held)) ≡ false
  unlocked conn held free =
      subst (λ l. contains ℕ_discrete conn l ≡ false)
        (sym (erased pq conn held (conn ∷ held) free refl)) free

module _ {S : Type 0} (pq : Libpq S) (rows : S → ℕ) where
  abbrev pub results_left : State S → ℕ
  results_left s = rows s.world.server + pending s.immediate_result

  pub hold-Answered :
      (held : Option PgResult × S) (w : World S) (n : ℕ)
      → Answered held.0 n (rows held.1)
      → Answered (hold pq held w).0 n (rows (hold pq held w).1.server)
  hold-Answered (none, s) w n h = h
  hold-Answered (some result, s) w n h = h
