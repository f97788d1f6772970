-- ===== src/Pg/Pool/Overshoot.antt =====
-- The pool's size is no bound on the connections in use: every warm connection comes on top.
use mathlib.Core.List.{Mem, mem-cons, not-mem-nil, append-nil}
use mathlib.Core.HLevel.{⊥_prop}
use mathlib.Core.Logic.Or
use mtdd_server.Base.{ℕ, zero, suc, ◌≤◌, true, List, [], ◌∷◌, ◌≡◌, refl, arith, ap, length}
use mtdd_server.Base.Int.{pos}
use mtdd_server.Pg.Conn.{default_params}
use mtdd_server.Pg.Pool.{configure, connect, acquire}
use mtdd_server.Pg.Pool.Accounting.{System, configures, warms, leases, Reach, here, next, start}

-- The connections k - 1 down to 0.
abbrev countdown : ℕ → List ℕ
countdown zero = []
countdown (suc k) = k ∷ countdown k

countdown-below : (k j : ℕ) → k ≤ j → ¬ Mem j (countdown k)
countdown-below zero j h = not-mem-nil
countdown-below (suc k) j h =
    λ m. Or.elim ⊥_prop (mem-cons.0 m) (λ e. omega (arith, e)) (countdown-below k j (omega arith))

length-countdown : (k : ℕ) → length (countdown k) ≡ k
length-countdown zero = refl
length-countdown (suc k) = ap suc (length-countdown k)

-- A pool of size 1 of which `k` warm connections are held.
abbrev crowded : ℕ → System
crowded k = record {
  pool = record {
    params = default_params;
    pool_size = pos 1;
    configured = true;
    idle = [];
    in_use = pos k;
  };
  leased = countdown k;
  connecting = 0;
  warmed = k;
  peak = 8;
}

crowded-Reach : (k : ℕ) → Reach start (crowded k)
unfolding configure connect acquire
crowded-Reach zero =
    next here (configures default_params (pos 1) 8 (omega arith) (omega arith) (omega arith))
crowded-Reach (suc k) =
    next
      (next (crowded-Reach k)
        (warms k (rw (append-nil (countdown k)) (countdown-below k k (omega arith)))))
      (leases k _ refl)

-- For every k, users of a pool of size 1 can come to hold k connections at once: Connect puts
-- connections in without looking at the size, and Acquire hands idle ones out the same way.
pub pool_size_overshoot :
    (k : ℕ)
    → (s : System) × Reach start s
      × (s.pool.pool_size ≡ pos 1)
      × (s.pool.in_use ≡ pos k)
      × (length s.leased ≡ k)
pool_size_overshoot k = (crowded k, crowded-Reach k, refl, refl, length-countdown k)
