-- ===== src/Pg/Stream/Steps.antt =====
-- Lemmas on the steps that Close and Abort are made of: runs that do not get stuck, the statements
-- sent, and the members CloseCursor and EndTransaction.
use mathlib.Core.List.{append-nil}
use mtdd_server.Base.{
  ℕ, Bytes, codes, Bool, true, false, not, ◌&&◌, Option, none, some, List, [], ◌∷◌, ◌++◌,
  if◌then◌else◌, is_empty, contains, ℕ_discrete, erase, ◌≡◌, refl, ◌∙◌, sym, arith, if_both,
  erase_absent,
}
use mtdd_server.Base.Int.{ℤ}
use mtdd_server.Pg.Libpq.{Libpq, PgResult, Param}
use mtdd_server.Pg.Conn.{World, exec, exec_params, clear, hold, is_command_ok}
use mtdd_server.Pg.Stream.State.{
  ◌>>=◌, ◌>>◌, State, Outcome, done, stuck, M, with_lock, unlock, continue, result_status,
  result_error, keep_error, clear_result, run,
}
use mtdd_server.Pg.Stream.Cursor.{end_locked, close_locked, end_transaction, close_cursor}

-- The run comes to its end, in a state with the property.
abbrev pub Ends : {S : Type 0} → (State S → Type 0) → Outcome (Unit {0} × State S) → Type 0
Ends P (done (u, t)) = P t
Ends P (stuck w) = ⊥

module _ {S : Type 0} (P Q : State S → Type 0) where
  pub Ends-continue :
      (o : Outcome (Unit {0} × State S)) (f : Unit {0} → M S (Unit {0}))
      → Ends Q o
      → ((t : State S) → Q t → Ends P (f tt t))
      → Ends P (continue o f)
  Ends-continue (done (u, t)) f h next = next t h
  Ends-continue (stuck w) f h next = elim h [ ]

  pub Ends-weaken :
      (o : Outcome (Unit {0} × State S))
      → Ends Q o
      → ((t : State S) → Q t → Ends P (done (tt, t)))
      → Ends P o
  Ends-weaken (done (u, t)) h next = next t h
  Ends-weaken (stuck w) h next = h

module _ {S : Type 0} (P : State S → Type 0) where
  pub with_lock-Ends :
      (conn : ℕ) (body : M S (Unit {0})) (s : State S)
      → contains ℕ_discrete conn s.locked ≡ false
      → Ends
          (λ t. P (record t { locked = erase ℕ_discrete conn t.locked }))
          (body (record s { locked = conn ∷ s.locked }))
      → Ends P (with_lock conn body s)
  unfolding with_lock
  with_lock-Ends conn body s free h =
      rw free (unlock-Ends (body (record s { locked = conn ∷ s.locked })) h)
    where
      unlock-Ends :
          (o : Outcome (Unit {0} × State S))
          → Ends (λ t. P (record t { locked = erase ℕ_discrete conn t.locked })) o
          → Ends P (unlock conn o)
      unlock-Ends (done (u, t)) h = h
      unlock-Ends (stuck w) h = h

module _ {S : Type 0} (pq : Libpq S) where
  hold-sent : (held : Option PgResult × S) (w : World S) → (hold pq held w).1.sent ≡ w.sent
  hold-sent (none, v) w = refl
  hold-sent (some result, v) w = refl

  pub exec-sent :
      (conn : ℕ) (sql : Bytes) (w : World S) → (exec pq conn sql w).1.sent ≡ w.sent ++ sql ∷ []
  unfolding exec
  exec-sent conn sql w =
      hold-sent (pq.exec conn sql w.server) (record w { sent = w.sent ++ sql ∷ [] })

  pub exec-server :
      (conn : ℕ) (sql : Bytes) (w : World S)
      → (exec pq conn sql w).1.server ≡ (pq.exec conn sql w.server).1
  unfolding exec
  exec-server conn sql w = held (pq.exec conn sql w.server)
    where
      held :
          (answer : Option PgResult × S)
          → (hold pq answer (record w { sent = w.sent ++ sql ∷ [] })).1.server ≡ answer.1
      held (none, v) = refl
      held (some result, v) = refl

  pub exec_params-sent :
      (conn : ℕ) (sql : Bytes) (params : List Param) (format : ℤ) (w : World S)
      → (exec_params pq conn sql params format w).1.sent ≡ w.sent ++ sql ∷ []
  unfolding exec_params
  exec_params-sent conn sql params format w =
      hold-sent (pq.exec_params conn sql params format w.server)
        (record w { sent = w.sent ++ sql ∷ [] })

  pub clear-sent : (result : Option PgResult) (w : World S) → (clear pq result w).sent ≡ w.sent
  unfolding clear
  clear-sent none w = refl
  clear-sent (some result) w = refl

abbrev pub close_statement : Bool → Bytes → List Bytes
close_statement true name = (codes "CLOSE " ++ name) ∷ []
close_statement false name = []

abbrev pub end_statement : Bool → Bool → List Bytes
end_statement commit true = (if commit then codes "COMMIT" else codes "ROLLBACK") ∷ []
end_statement commit false = []

module _ {S : Type 0} where
  -- A step that only adds statements to those sent, and touches neither the connection, nor
  -- the pool, nor the sessions.
  abbrev pub Sends : ℕ → List Bytes → State S → State S → Type 0
  Sends conn statements s t =
      (t.connection_ ≡ some conn)
      × (t.pooled ≡ s.pooled)
      × (t.use_cursor ≡ s.use_cursor)
      × (t.immediate_result ≡ s.immediate_result)
      × (t.pool ≡ s.pool)
      × (t.sessions ≡ s.sessions)
      × (t.locked ≡ s.locked)
      × (t.world.sent ≡ s.world.sent ++ statements)

  -- After a `CLOSE` or what stands for it, and after the transaction's end.
  abbrev pub Closed : ℕ → Bool → State S → State S → Type 0
  Closed conn is_open s t =
      Sends conn (close_statement is_open s.cursor_name) s t
      × (t.cursor_open ≡ false)
      × (t.started_local_txn ≡ s.started_local_txn)

  abbrev pub Finished : ℕ → Bool → Bool → State S → State S → Type 0
  Finished conn commit started s t =
      Sends conn (end_statement commit started) s t
      × (t.started_local_txn ≡ false)
      × (t.cursor_open ≡ s.cursor_open)

module _ {S : Type 0} (pq : Libpq S) where
  -- The mutex that was taken last is given back.
  pub erased :
      (conn : ℕ) (held now : List ℕ)
      → contains ℕ_discrete conn held ≡ false
      → now ≡ conn ∷ held
      → erase ℕ_discrete conn now ≡ held
  erased conn held now free p =
      rw p (unfold erase in ground (arith, erase_absent ℕ_discrete conn held free))

  keep_error-Ends :
      (P : State S → Type 0) (result : Option PgResult) (s : State S)
      (f : Unit {0} → M S (Unit {0}))
      → ((e : Bytes) → Ends P (f tt (record s { error = e })))
      → Ends P (continue (keep_error (result_status result) (result_error result) s) f)
  keep_error-Ends P result s f h =
      if_both (λ o. Ends P (continue o f))
        (not (is_command_ok (result_status result)) && is_empty s.error) (h (result_error result))
        (h s.error)

  -- A statement, its error, its result cleared, and what follows.
  pub settled-Ends :
      (P : State S → Type 0) (conn : ℕ) (sql : Bytes) (s : State S) (f : Unit {0} → M S (Unit {0}))
      → s.connection_ ≡ some conn
      → ((t : State S)
          → Sends conn (sql ∷ []) s t
          → (t.cursor_open ≡ s.cursor_open)
          → (t.started_local_txn ≡ s.started_local_txn)
          → Ends P (f tt t))
      → Ends P (
          (do
            result ← run pq conn sql
            keep_error (result_status result) (result_error result)
            clear_result pq result
            f tt)
            s)
  settled-Ends P conn sql s f c h =
      let held = exec pq conn sql s.world in
      keep_error-Ends P held.0 (record s { world = held.1 }) (λ u. clear_result pq held.0 >> f tt)
        (λ e.
          h (record s { world = clear pq held.0 held.1; error = e })
            (
              c,
              refl,
              refl,
              refl,
              refl,
              refl,
              refl,
              (clear-sent pq held.0 held.1) ∙ exec-sent pq conn sql s.world,
            )
            refl refl)

  pub close_cursor-Ends :
      (conn : ℕ) (is_open : Bool) (s : State S)
      → contains ℕ_discrete conn s.locked ≡ false
      → Ends
          (Closed conn is_open s)
          (close_cursor pq (record s { connection_ = some conn; cursor_open = is_open }))
  unfolding close_cursor
  close_cursor-Ends conn true s free =
      let u = record s { connection_ = some conn; cursor_open = true } in
      with_lock-Ends (Closed conn true s) conn (close_locked pq conn) u free (
        settled-Ends
          (λ t. Closed conn true s (record t { locked = erase ℕ_discrete conn t.locked })) conn
          (codes "CLOSE " ++ s.cursor_name) (record u { locked = conn ∷ s.locked })
          (λ u t. done (tt, record t { cursor_open = false })) refl
          (λ t (c, p, q, i, o, z, l, e) _ b.
            ((c, p, q, i, o, z, erased conn s.locked t.locked free l, e), refl, b)))
  close_cursor-Ends conn false s free =
      ((refl, refl, refl, refl, refl, refl, refl, sym (append-nil s.world.sent)), refl, refl)

  pub end_transaction-Ends :
      (conn : ℕ) (commit started : Bool) (s : State S)
      → contains ℕ_discrete conn s.locked ≡ false
      → Ends (Finished conn commit started s) (
          end_transaction pq commit
            (record s { connection_ = some conn; started_local_txn = started }))
  unfolding end_transaction
  end_transaction-Ends conn commit true s free =
      let u = record s { connection_ = some conn; started_local_txn = true } in
      with_lock-Ends (Finished conn commit true s) conn (end_locked pq commit conn) u free (
        settled-Ends
          (λ t. Finished conn commit true s (record t { locked = erase ℕ_discrete conn t.locked }))
          conn (if commit then codes "COMMIT" else codes "ROLLBACK")
          (record u { locked = conn ∷ s.locked })
          (λ u t. done (tt, record t { started_local_txn = false })) refl
          (λ t (c, p, q, i, o, z, l, e) b _.
            ((c, p, q, i, o, z, erased conn s.locked t.locked free l, e), refl, b)))
  end_transaction-Ends conn commit false s free =
      ((refl, refl, refl, refl, refl, refl, refl, sym (append-nil s.world.sent)), refl, refl)
