-- ===== src/Pg/Tests.antt =====
-- The theorems on connections, the pool, the sessions and streamed queries on a small server, which
-- accepts or refuses BEGIN and DECLARE.
use mtdd_server.Base.{
  ℕ, suc, ◌<◌, ◌^◌, Bytes, codes, List, [], ◌∷◌, none, some, Bool, true, false, ◌≡◌, ◌≢◌, refl,
  arith, if◌then◌else◌, equal, ℕ_discrete, length,
}
use mathlib.Core.List.{Nodup, not-mem-nil}
use mtdd_server.Base.Int.{pos}
use mtdd_server.Base.Results.{Result, ok}
use mtdd_server.Codec.QueryMeta
use mtdd_server.Pg.Libpq.{Libpq, PgResult, ExecStatus, command_ok, tuples_ok, fatal_error, idle}
use mtdd_server.Pg.Conn.{World, default_params, connect, exec, exec_params}
use mtdd_server.Pg.Conn.Balance.{IsFresh, Balanced, connect-Balanced}
use mtdd_server.Pg.Pool
use mtdd_server.Pg.Pool.Accounting.{
  System, IsAccounted, Reach, here, next, start, warms, leases, Reach-IsAccounted,
}
use mtdd_server.Pg.Pool.Exclusive.{known, Reach-Nodup}
use mtdd_server.Pg.Pool.Overshoot.{pool_size_overshoot}
use mtdd_server.Pg.Sessions.{make_store, get_or_create}
use mtdd_server.Pg.Sessions.Limit.{
  IsLimited, make_store-IsLimited, get_or_create-IsLimited, Binds, get_or_create-Binds,
}
use mtdd_server.Pg.Executor.{Executor, execute}
use mtdd_server.Pg.Executor.Release.{Settles, execute-IsSettled}
use mtdd_server.Pg.Stream.State.{State, stuck, deadlock}
use mtdd_server.Pg.Stream.Query.{close, abort, open_query}
use mtdd_server.Pg.Stream.Cursor.{open_cursor}
use mtdd_server.Pg.Stream.Request.{QueryRequest}
use mtdd_server.Pg.Stream.Steps.{Ends}
use mtdd_server.Pg.Stream.End.{IsReleased, close-abort_lem}
use mtdd_server.Pg.Stream.Deadlock.{open_cursor-deadlock, open_query-Keeps, Keeps}

abbrev answer : ExecStatus → PgResult
answer status = record {
  status = status;
  error_message = codes "refused";
  error_field = λ f. none;
  cmd_status = none;
  cmd_tuples = none;
  num_fields = 0;
  num_rows = 0;
  field_name = λ c. none;
  field_table = λ c. 0;
  field_table_column = λ c. pos 0;
  field_type = λ c. 0;
  field_format = λ c. pos 0;
  is_null = λ r c. true;
  value = λ r c. none;
  value_length = λ r c. pos 0;
}

abbrev status_of : Bool → Bytes → ExecStatus
status_of begins sql =
    if equal sql (codes "SELECT 1") then tuples_ok else if begins then command_ok else fatal_error

-- Its state is the address of the next connection.
abbrev server : Bool → Libpq ℕ
server begins = record {
  connectdb = λ info n. (some n, suc n);
  finish = λ conn n. n;
  connection_ok = λ conn n. true;
  connection_error = λ conn n. codes "gone";
  transaction_status = λ conn n. idle;
  exec = λ conn sql n. (some (answer (status_of begins sql)), n);
  exec_params = λ conn sql params format n. (some (answer fatal_error), n);
}

abbrev world : World ℕ
world = record { server = 5; open_connections = 4 ∷ []; live_results = 0; sent = [] }

five-IsFresh : IsFresh (server true) default_params world
unfolding ℕ_discrete
five-IsFresh conn e = ground arith

connect-Balanced_example :
    Balanced (server true) world (connect (server true) default_params (pos 100) world)
connect-Balanced_example =
    connect-Balanced (server true) default_params (pos 100) world five-IsFresh

-- The pool: connection 0 is put in, handed out, and given back.
abbrev pool_of : List ℕ → ℕ → Pool.ConnectionManager
pool_of conns in_use = record {
  params = default_params;
  pool_size = pos 8;
  configured = false;
  idle = conns;
  in_use = pos in_use;
}

abbrev leased : System
leased = record { pool = pool_of [] 1; leased = 0 ∷ []; connecting = 0; warmed = 1; peak = 8 }

leased-Reach : Reach start leased
unfolding Pool.connect Pool.acquire
leased-Reach = next (next here (warms 0 not-mem-nil)) (leases 0 (pool_of [] 1) refl)

Reach-IsAccounted_example : IsAccounted leased
Reach-IsAccounted_example = Reach-IsAccounted leased-Reach

Reach-Nodup_example : Nodup (known leased)
Reach-Nodup_example = Reach-Nodup leased-Reach

pool_size_overshoot_example :
    (s : System) × Reach start s
    × (s.pool.pool_size ≡ pos 1)
    × (s.pool.in_use ≡ pos 3)
    × (length s.leased ≡ 3)
pool_size_overshoot_example = pool_size_overshoot 3

-- Sessions whose connections are all healthy, and are numbered by the state.
abbrev healthy : ℕ → ℕ → Bool
healthy conn n = true

abbrev connects_next : ℕ → Result ℕ × ℕ
connects_next n = (ok n, suc n)

two_sessions : ◌<◌ 2 (2 ^ 31)
two_sessions = omega arith

get_or_create-IsLimited_example :
    IsLimited (get_or_create healthy connects_next (codes "s1") (make_store (pos 2)) 7).1
get_or_create-IsLimited_example =
    get_or_create-IsLimited healthy connects_next (codes "s1") (make_store (pos 2)) 7
      (make_store-IsLimited 2 two_sessions)

s1_nonempty : codes "s1" ≢ []
s1_nonempty e = cc

get_or_create-Binds_example :
    Binds healthy connects_next
      (codes "s1")
      (make_store (pos 2))
      7
      (get_or_create healthy connects_next (codes "s1") (make_store (pos 2)) 7)
get_or_create-Binds_example =
    get_or_create-Binds healthy connects_next (codes "s1") (make_store (pos 2)) 7 s1_nonempty

-- A query that has begun a transaction and holds a pooled connection.
abbrev query : State ℕ
query = record {
  connection_ = some 4;
  pooled = true;
  use_session = false;
  use_cursor = true;
  started_local_txn = true;
  cursor_open = true;
  immediate_done = false;
  immediate_result = none;
  cursor_name = codes "mtdd_c_0";
  pool = pool_of [] 1;
  sessions = record { max_sessions = pos 2; sessions = [] };
  world = world;
  cursor_counter = 1;
  locked = [];
  error = [];
}

close-abort_lem_example :
    Ends (IsReleased true query) (close (server true) query)
    × Ends (IsReleased false query) (abort (server true) query)
close-abort_lem_example = close-abort_lem (server true) query 4 refl refl refl

abbrev request : QueryRequest
request = record {
  host_index = pos 0;
  text = codes "SELECT broken";
  name = [];
  row_mode = [];
  params = [];
  result_format = pos 1;
  session_id = [];
}

abbrev fresh_query : State ℕ
fresh_query = record query { started_local_txn = false; cursor_open = false }

open_cursor-deadlock_example : open_cursor (server true) request 4 fresh_query ≡ stuck deadlock
unfolding exec exec_params equal
open_cursor-deadlock_example =
    open_cursor-deadlock (server true) request 4 fresh_query refl refl refl refl refl

abbrev before_open : State ℕ
before_open = record query { connection_ = none; pooled = false; pool = pool_of (4 ∷ []) 0 }

open_query-Keeps_example :
    Keeps 4 (pos 1) (open_query (server false) default_params request before_open)
unfolding exec equal QueryMeta.is_tuple_streaming_sql QueryMeta.upper_token QueryMeta.before
    QueryMeta.drop_trailing QueryMeta.drop_leading QueryMeta.to_upper
open_query-Keeps_example =
    open_query-Keeps (server false) default_params request 4 [] before_open refl refl refl refl refl
      refl

abbrev executor : Executor ℕ
executor = record {
  pool = pool_of (4 ∷ []) 0;
  sessions = record { max_sessions = pos 2; sessions = [] };
  world = world;
  error = [];
}

execute-IsSettled_example :
    Settles (server true) (pos 0) 0 (execute (server true) default_params request executor)
execute-IsSettled_example =
    execute-IsSettled (server true) default_params request executor refl five-IsFresh
