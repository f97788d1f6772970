-- ===== src/Pg/Conn/Balance.antt =====
-- Opening a connection leaks nothing: what fails is finished, and every result is cleared.
use mtdd_server.Base.{
  ℕ, suc, Bytes, codes, false, not, Option, none, some, ◌∷◌, ◌++◌, if◌then◌else◌, ◌≡◌, refl, erase,
  contains, ℕ_discrete, arith, erase_absent, inl, inr, Bool-cases,
}
use mtdd_server.Base.Int.{ℤ, is_positive}
use mtdd_server.Base.Results.{Result, ok, throw}
use mtdd_server.Pg.Libpq.{Libpq, PgResult}
use mtdd_server.Base.{if_both}
use mtdd_server.Base.Decimal.{to_string_ℤ}
use mtdd_server.Pg.Conn.{
  is_tuples_ok, opened, ConnectParams, World, build_conninfo, exec, clear, connectdb, finish,
  timeout_set, apply_statement_timeout, after_timeout, probed, after_open, connect,
}

module _ {S : Type 0} (pq : Libpq S) where
  -- From `w` on, an attempt on the open connection `conn` ends with `conn` as it was, or with
  -- `conn` finished; no result is held that was not held before.
  abbrev Settles : ℕ → World S → Result ℕ × World S → Type 0
  Settles conn w (ok c, v) =
      (c ≡ conn) × (v.open_connections ≡ w.open_connections) × (v.live_results ≡ w.live_results)
  Settles conn w (throw e, v) =
      (v.open_connections ≡ erase ℕ_discrete conn w.open_connections)
      × (v.live_results ≡ w.live_results)

  -- A call of PQexec holds one result more, or none.
  abbrev Held : World S → Option PgResult × World S → Type 0
  Held w (none, v) = (v.open_connections ≡ w.open_connections) × (v.live_results ≡ w.live_results)
  Held w (some result, v) =
      (v.open_connections ≡ w.open_connections) × (v.live_results ≡ suc w.live_results)

  exec-Held : (conn : ℕ) (sql : Bytes) (w : World S) → Held w (exec pq conn sql w)
  unfolding exec
  exec-Held conn sql w = ground arith

  timeout_set-Settles :
      (conn : ℕ) (w : World S) (held : Option PgResult × World S)
      → Held w held
      → Settles conn w (after_timeout pq conn (timeout_set pq held.0 held.1))
  unfolding timeout_set after_timeout
  timeout_set-Settles conn w (none, v) h = ground arith
  timeout_set-Settles conn w (some result, v) h = ground arith

  apply_statement_timeout-Settles :
      (conn : ℕ) (timeout_ms : ℤ) (w : World S)
      → Settles conn w (after_timeout pq conn (apply_statement_timeout pq conn timeout_ms w))
  unfolding apply_statement_timeout
  apply_statement_timeout-Settles conn timeout_ms w =
      let sql = codes "SET statement_timeout = " ++ to_string_ℤ timeout_ms in
      if_both (λ r. Settles conn w (after_timeout pq conn r)) (not (is_positive timeout_ms))
        (unfold after_timeout in (refl, refl, refl))
        (timeout_set-Settles conn w (exec pq conn sql w) (exec-Held conn sql w))

  Settles-same :
      (conn : ℕ) (v w : World S) (r : Result ℕ × World S)
      → v.open_connections ≡ w.open_connections
      → v.live_results ≡ w.live_results
      → Settles conn v r
      → Settles conn w r
  Settles-same conn v w (ok c, u) p q h = ground arith
  Settles-same conn v w (throw e, u) p q h = ground arith

  probed-Settles :
      (conn : ℕ) (timeout_ms : ℤ) (w : World S) (held : Option PgResult × World S)
      → Held w held
      → Settles conn w (probed pq conn timeout_ms held)
  unfolding probed
  probed-Settles conn timeout_ms w (none, v) h = ground arith
  probed-Settles conn timeout_ms w (some result, v) h =
      elim (Bool-cases (is_tuples_ok result.status)) [
        | inl fine ↦
            rw (fine, probed)
              (Settles-same conn (clear pq (some result) v) w
                (after_timeout pq conn
                  (apply_statement_timeout pq conn timeout_ms (clear pq (some result) v)))
                (ground arith) (ground arith)
                (apply_statement_timeout-Settles conn timeout_ms (clear pq (some result) v)))
        | inr bad ↦ rw (bad, probed) ((ground arith, ground arith))
      ]

  -- libpq's promise: the address of a new connection is not that of an open one.
  abbrev pub IsFresh : ConnectParams → World S → Type 0
  IsFresh params w =
      (conn : ℕ)
      → (pq.connectdb (build_conninfo params) w.server).0 ≡ some conn
      → contains ℕ_discrete conn w.open_connections ≡ false

  -- What is open and held after an attempt.
  abbrev pub Balanced : World S → Result ℕ × World S → Type 0
  Balanced w (ok c, v) =
      (contains ℕ_discrete c w.open_connections ≡ false)
      × (v.open_connections ≡ c ∷ w.open_connections)
      × (v.live_results ≡ w.live_results)
  Balanced w (throw e, v) =
      (v.open_connections ≡ w.open_connections) × (v.live_results ≡ w.live_results)

  Settles-Balanced :
      (conn : ℕ) (u w : World S) (r : Result ℕ × World S)
      → contains ℕ_discrete conn w.open_connections ≡ false
      → u.open_connections ≡ conn ∷ w.open_connections
      → u.live_results ≡ w.live_results
      → Settles conn u r
      → Balanced w r
  Settles-Balanced conn u w (ok c, v) f p q h = ground arith
  Settles-Balanced conn u w (throw e, v) f p q h =
      unfold erase in ground (arith, erase_absent ℕ_discrete conn w.open_connections f)

  after_open-Balanced :
      (timeout_ms : ℤ) (w : World S) (c : Option ℕ × S)
      → ((conn : ℕ) → c.0 ≡ some conn → contains ℕ_discrete conn w.open_connections ≡ false)
      → Balanced w (after_open pq timeout_ms (opened pq c w))
  unfolding after_open
  after_open-Balanced timeout_ms w (none, s) f = (refl, refl)
  after_open-Balanced timeout_ms w (some conn, s) f =
      let u = (opened pq (some conn, s) w).1 in
      if_both (Balanced w) (not (pq.connection_ok conn s))
        (unfold finish in
          unfold erase in
          ground
            (arith, erase_absent ℕ_discrete conn w.open_connections (f conn refl), f conn refl))
        (Settles-Balanced conn u w (probed pq conn timeout_ms (exec pq conn (codes "SELECT 1") u))
          (f conn refl) refl refl
          (probed-Settles conn timeout_ms u (exec pq conn (codes "SELECT 1") u)
            (exec-Held conn (codes "SELECT 1") u)))

  -- If libpq never returns the address of an open connection for a new one, an attempt to connect
  -- that fails, at whatever step, leaves the process with the connections that it had, one that
  -- succeeds adds the new connection alone, and no result stays uncleared.
  pub connect-Balanced :
      (params : ConnectParams) (statement_timeout_ms : ℤ) (w : World S)
      → IsFresh params w
      → Balanced w (connect pq params statement_timeout_ms w)
  unfolding connect connectdb
  connect-Balanced params statement_timeout_ms w f =
      after_open-Balanced
        (if is_positive statement_timeout_ms
          then statement_timeout_ms
          else params.statement_timeout_ms)
        w (pq.connectdb (build_conninfo params) w.server) f
