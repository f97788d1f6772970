-- ===== src/Pg/Pool/Accounting.antt =====
-- The pool under any interleaving of its users: what `in_use_` counts, how many connections there
-- can be, and that no two users hold one connection.
use mtdd_server.Base.{
  ℕ, suc, ◌+◌, ◌≤◌, Bool, true, some, List, [], ◌∷◌, ◌++◌, ◌≡◌, refl, arith, length, length-append,
}
use mathlib.Core.List.{Mem}
use mtdd_server.Base.Int.{ℤ, pos, ltb_ℤ, pos_part, increment, decrement}
use mtdd_server.Base.Results.{ok}
use mtdd_server.Pg.Conn.{ConnectParams}
use mtdd_server.Pg.Pool.{
  ConnectionManager, initial, configure, connect, takes, creates, acquire, acquire_failed, release,
  close_all,
}

-- The pool with its users: who holds a connection, and how many are between the two locks of
-- `Acquire`. `warmed` counts the connections that `Connect` has put in, and `peak` is a bound on
-- all the sizes that the pool was ever given.
pub record System : Type 0 where
  pub pool : ConnectionManager
  pub leased : List ℕ
  pub connecting : ℕ
  pub warmed : ℕ
  pub peak : ℕ

-- One atomic step of one of the users.
pub data Step (s : System) : System → Type 0 where
  -- Configure
  configures :
      (params : ConnectParams) (size : ℤ) (peak : ℕ)
      → s.peak ≤ peak
      → pos_part size ≤ peak
      → 1 ≤ peak
      → Step s (record s { pool = configure params size s.pool; peak = peak })
  -- Connect, with a connection that nobody holds
  warms :
      (conn : ℕ)
      → ¬ Mem conn (s.leased ++ s.pool.idle)
      → Step s (record s { pool = (connect (ok conn) s.pool).1; warmed = suc s.warmed })
  -- Acquire of an idle connection
  leases :
      (conn : ℕ) (m : ConnectionManager)
      → acquire s.pool ≡ takes conn m
      → Step s (record s { pool = m; leased = conn ∷ s.leased })
  -- Acquire that goes on to connect, and the two ends of that
  reserves :
      (m : ConnectionManager)
      → acquire s.pool ≡ creates m
      → Step s (record s { pool = m; connecting = suc s.connecting })
  connects :
      (conn n : ℕ)
      → s.connecting ≡ suc n
      → ¬ Mem conn (s.leased ++ s.pool.idle)
      → Step s (record s { leased = conn ∷ s.leased; connecting = n })
  gives_up :
      (n : ℕ)
      → s.connecting ≡ suc n
      → Step s (record s { pool = acquire_failed s.pool; connecting = n })
  -- Release of a connection that is held
  releases :
      (before after : List ℕ) (conn : ℕ) (broken healthy : Bool)
      → s.leased ≡ before ++ conn ∷ after
      → Step s
          (record s { pool = release (some conn) broken healthy s.pool; leased = before ++ after })
  -- CloseAll
  closes : Step s (record s { pool = close_all s.pool })

pub data Reach (s : System) : System → Type 0 where
  here : Reach s s
  next : {t u : System} → Reach s t → Step t u → Reach s u

-- `in_use_` counts the connections held and those being opened; all connections together are
-- bounded by the largest size that the pool had and the warm connections beside it.
pub record IsAccounted (s : System) : Type 0 where
  pub counted : s.pool.in_use ≡ pos (length s.leased + s.connecting)
  pub sized : pos_part s.pool.pool_size ≤ s.peak
  pub bounded : length s.leased + s.connecting + length s.pool.idle ≤ s.peak + s.warmed

-- What the first lock of `Acquire` found, and how it left the pool.
pub takes_idle :
    (p m : ConnectionManager) (conn : ℕ) (xs : List ℕ)
    → p.idle ≡ xs
    → acquire p ≡ takes conn m
    → (rest : List ℕ) × (p.idle ≡ conn ∷ rest)
      × (m ≡ record p { idle = rest; in_use = increment p.in_use })
unfolding acquire
takes_idle p m conn [] e h = absurd (ground arith)
takes_idle p m conn (x ∷ rest) e h = (rest, ground arith, ground arith)

pub creates_room :
    (p m : ConnectionManager)
    → acquire p ≡ creates m
    → (p.idle ≡ [])
      × (ltb_ℤ p.in_use p.pool_size ≡ true)
      × (m ≡ record p { in_use = increment p.in_use })
unfolding acquire
creates_room p m h = ground arith

release_keeps :
    (p : ConnectionManager) (conn : ℕ) (broken healthy : Bool)
    → let q = release (some conn) broken healthy p in
      (q.in_use ≡ decrement p.in_use)
      × (q.pool_size ≡ p.pool_size)
      × (length q.idle ≤ suc (length p.idle))
unfolding release
release_keeps p conn broken healthy = ground (arith, length-append p.idle (conn ∷ []))

pub Step-IsAccounted : {s t : System} → Step s t → IsAccounted s → IsAccounted t
Step-IsAccounted (configures params size peak h k one) v = unfold configure in ground arith
Step-IsAccounted {s} (warms conn h) v =
    unfold connect in ground (arith, length-append s.pool.idle (conn ∷ []))
Step-IsAccounted {s} (leases conn m e) v =
    let (rest, i, f) = takes_idle s.pool m conn s.pool.idle refl e in ground (arith, i, f)
Step-IsAccounted {s} (reserves m e) v =
    let (i, room, f) = creates_room s.pool m e in ground (arith, i, room, f)
Step-IsAccounted (connects conn n e h) v = ground arith
Step-IsAccounted (gives_up n e) v = unfold acquire_failed in ground arith
Step-IsAccounted {s} (releases before after conn broken healthy e) v = ground (
  arith,
  release_keeps s.pool conn broken healthy,
  length-append before (conn ∷ after),
  length-append before after,
)
Step-IsAccounted closes v = unfold close_all in ground arith

abbrev pub start : System
start = record { pool = initial; leased = []; connecting = 0; warmed = 0; peak = 8 }

-- In every state that the pool's users can reach by any interleaving of their steps, in_use_ is
-- the number of connections held and being opened, and the connections held, being opened and idle
-- are together at most the largest pool size so far plus the number of warm connections that
-- Connect put in.
pub Reach-IsAccounted : {s : System} → Reach start s → IsAccounted s
Reach-IsAccounted here = record { counted = refl; sized = omega arith; bounded = omega arith }
Reach-IsAccounted (next r st) = Step-IsAccounted st (Reach-IsAccounted r)
