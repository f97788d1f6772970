-- ===== src/Pg/Stream/State.antt =====
-- The state of a StreamingQuery (src/pg/streaming_query.cpp) and the steps that its members are
-- made of: a monad of runs that may get stuck, the scopes of lock_guard, and the calls of libpq.
use mtdd_server.Base.{
  ℕ, Bytes, codes, Bool, true, false, not, ◌&&◌, Option, none, some, List, [], ◌∷◌, ◌++◌,
  if◌then◌else◌, is_empty, contains, ℕ_discrete, erase,
}
use mtdd_server.Base.Int.{ℤ, pos, is_positive}
use mtdd_server.Base.Decimal.{to_string}
use mtdd_server.Pg.Libpq.{
  Libpq, PgResult, Param, ExecStatus, command_ok, tuples_ok, empty_query, fatal_error,
}
use mtdd_server.Pg.Conn.{World, exec, exec_params, clear, is_command_ok}
use mtdd_server.Pg.Pool.{ConnectionManager}
use mtdd_server.Pg.Sessions.{SessionStore}

-- The members of StreamingQuery, and what it works on: the pool, the sessions, the connections, the
-- cursor counter, the mutexes that the thread holds, and the string that `error_out` points to.
pub record State (S : Type 0) : Type 0 where
  pub connection_ : Option ℕ
  pub pooled : Bool
  pub use_session : Bool
  pub use_cursor : Bool
  pub started_local_txn : Bool
  pub cursor_open : Bool
  pub immediate_done : Bool
  pub immediate_result : Option PgResult
  pub cursor_name : Bytes
  pub pool : ConnectionManager
  pub sessions : SessionStore
  pub world : World S
  pub cursor_counter : ℕ
  pub locked : List ℕ
  pub error : Bytes

pub data Stuck : Type 0 where
  deadlock waiting : Stuck

pub data Outcome {ℓ} (A : Type ℓ) : Type ℓ where
  done : A → Outcome A
  stuck : Stuck → Outcome A

abbrev pub M : Type 0 → Type 0 → Type 0
M S A = State S → Outcome (A × State S)

module _ {S A B : Type 0} where
  abbrev pub continue : Outcome (A × State S) → (A → M S B) → Outcome (B × State S)
  continue (done (a, s)) f = f a s
  continue (stuck w) f = stuck w

  infixl 5 ◌>>=◌ ◌>>◌
  abbrev pub ◌>>=◌ : M S A → (A → M S B) → M S B
  ◌>>=◌ m f s = continue (m s) f

  abbrev pub ◌>>◌ : M S A → M S B → M S B
  m >> n = m >>= λ _. n

module _ {S A : Type 0} where
  abbrev pub pure : A → M S A
  pure a s = done (a, s)

  -- The end of a lock_guard's scope.
  abbrev pub unlock : ℕ → Outcome (A × State S) → Outcome (A × State S)
  unlock conn (done (a, s)) = done (a, record s { locked = erase ℕ_discrete conn s.locked })
  unlock conn (stuck w) = stuck w

  -- A scope with std::lock_guard on the connection's mutex.
  unfoldable pub with_lock : ℕ → M S A → M S A
  with_lock conn body s =
      if contains ℕ_discrete conn s.locked
      then stuck deadlock
      else unlock conn (body (record s { locked = conn ∷ s.locked }))

-- PQresultStatus and PQresultErrorMessage, of a null pointer too.
abbrev pub result_status : Option PgResult → ExecStatus
result_status none = fatal_error
result_status (some result) = result.status

abbrev pub result_error : Option PgResult → Bytes
result_error none = []
result_error (some result) = result.error_message

-- IsOkStatus
abbrev pub is_ok_status : ExecStatus → Bool
is_ok_status tuples_ok = true
is_ok_status command_ok = true
is_ok_status empty_query = true
is_ok_status _ = false

-- NextCursorName, on the value of the counter before it is counted up.
unfoldable pub cursor_name_of : ℕ → Bytes
cursor_name_of id = codes "mtdd_c_" ++ to_string id

-- The constructor's clamp.
abbrev pub clamp_fetch_size : ℤ → ℤ
clamp_fetch_size n = if is_positive n then n else pos 10000

module _ {S : Type 0} where
  abbrev pub set_error : Bytes → M S (Unit {0})
  set_error message s = done (tt, record s { error = message })

  -- An error is written if none is there yet.
  abbrev pub keep_error : ExecStatus → Bytes → M S (Unit {0})
  keep_error status message s =
      if not (is_command_ok status) && is_empty s.error
      then done (tt, record s { error = message })
      else done (tt, s)

module _ {S : Type 0} (pq : Libpq S) where
  -- PQexec and PQclear on the state.
  abbrev pub run : ℕ → Bytes → M S (Option PgResult)
  run conn sql s =
      let (result, w) = exec pq conn sql s.world in done (result, record s { world = w })

  abbrev pub run_params : ℕ → Bytes → List Param → ℤ → M S (Option PgResult)
  run_params conn sql params format s =
      let (result, w) = exec_params pq conn sql params format s.world in
      done (result, record s { world = w })

  abbrev pub clear_result : Option PgResult → M S (Unit {0})
  clear_result result s = done (tt, record s { world = clear pq result s.world })

  -- The error of a result that is refused, or the connection's where there is none.
  abbrev pub error_of : ℕ → Option PgResult → World S → Bytes
  error_of conn none w = pq.connection_error conn w.server
  error_of conn (some result) w = result.error_message

  -- A result that passes the test is handed on; another one is an error.
  abbrev pub accept : ℕ → (ExecStatus → Bool) → Option PgResult → M S (Option PgResult)
  accept conn test result s =
      if test (result_status result)
      then done (result, s)
      else done
          (none, record s { error = error_of conn result s.world; world = clear pq result s.world })
