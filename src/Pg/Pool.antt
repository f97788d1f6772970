-- ===== src/Pg/Pool.antt =====
-- src/pg/connection_manager.cpp: ConnectionManager, the pool. A function is what a member does
-- while it holds the mutex; `Acquire` holds it twice, before and after it connects. Connections are
-- addresses. `in_use_` is an `int` far from its limits, so it does not wrap here.
pub mod Accounting
pub mod Exclusive
pub mod Overshoot
use mtdd_server.Base.{
  ℕ, suc, ◌+◌, Bytes, Bool, true, false, ◌||◌, not, Option, none, some, List, [], ◌∷◌, ◌++◌,
  if◌then◌else◌,
}
use mtdd_server.Base.Int.{ℤ, pos, negsuc, is_positive, ltb_ℤ, increment, decrement}
use mtdd_server.Base.Results.{Result, ok, throw}
use mtdd_server.Pg.Conn.{ConnectParams, default_params}

pub record ConnectionManager : Type 0 where
  pub params : ConnectParams
  pub pool_size : ℤ
  pub configured : Bool
  pub idle : List ℕ
  pub in_use : ℤ

abbrev pub initial : ConnectionManager
initial = record {
  params = default_params;
  pool_size = pos 8;
  configured = false;
  idle = [];
  in_use = pos 0;
}

unfoldable pub configure : ConnectParams → ℤ → ConnectionManager → ConnectionManager
configure params pool_size m = record m {
  params = params;
  pool_size = if is_positive pool_size then pool_size else pos 1;
  configured = true;
}

unfoldable pub is_configured : ConnectionManager → Bool
is_configured m = m.configured

-- `Connect`, told how PqConnection::Connect ended: the error, or the pool with one idle more.
unfoldable pub connect : Result ℕ → ConnectionManager → Result (Unit {0}) × ConnectionManager
connect (throw e) m = (throw e, m)
connect (ok conn) m = (ok tt, record m { idle = m.idle ++ conn ∷ [] })

-- What `Acquire` finds under its first lock: nothing yet, an idle connection, or room for a new one.
pub data Acquired : Type 0 where
  waits : Acquired
  takes : ℕ → ConnectionManager → Acquired
  creates : ConnectionManager → Acquired

-- Behind the wait, on the idle connections.
abbrev acquire_from : List ℕ → ConnectionManager → Acquired
acquire_from (conn ∷ rest) m = takes conn (record m { idle = rest; in_use = increment m.in_use })
acquire_from [] m = creates (record m { in_use = increment m.in_use })

abbrev has_idle : List ℕ → Bool
has_idle [] = false
has_idle (conn ∷ rest) = true

unfoldable pub acquire : ConnectionManager → Acquired
acquire m = if has_idle m.idle || ltb_ℤ m.in_use m.pool_size then acquire_from m.idle m else waits

-- The second lock of `Acquire`, where the connection could not be created.
unfoldable pub acquire_failed : ConnectionManager → ConnectionManager
acquire_failed m = record m { in_use = decrement m.in_use }

-- `Release`, told whether the connection is healthy.
unfoldable pub release : Option ℕ → Bool → Bool → ConnectionManager → ConnectionManager
release none broken healthy m = m
release (some conn) broken healthy m =
    if broken || not healthy
    then record m { in_use = decrement m.in_use }
    else record m { in_use = decrement m.in_use; idle = m.idle ++ conn ∷ [] }

unfoldable pub close_all : ConnectionManager → ConnectionManager
close_all m = record m { idle = []; configured = false }
