-- ===== src/Shard/Start.antt =====
-- What the members of StreamingQuery (src/pg/streaming_query.cpp) that Open is made of leave behind
-- where they return true.
use mtdd_server.Base.{ℕ, Bool, true, false}
use mtdd_server.Pg.Stream.State.{State, Outcome, done, stuck, M, continue, pure, unlock}

module _ {S : Type 0} where
  -- A run that returns true ends so.
  abbrev pub Goes : (State S → Type 0) → Outcome (Bool × State S) → Type 0
  Goes P (done (true, t)) = P t
  Goes P (done (false, t)) = Unit
  Goes P (stuck w) = Unit

  pub Goes-continue :
      (P Q : State S → Type 0) (o : Outcome (Bool × State S)) (f : Bool → M S Bool)
      → Goes Q o
      → ((t : State S) → Q t → Goes P (f true t))
      → ((t : State S) → Goes P (f false t))
      → Goes P (continue o f)
  Goes-continue P Q (done (true, t)) f h k z = k t h
  Goes-continue P Q (done (false, t)) f h k z = z t
  Goes-continue P Q (stuck w) f h k z = tt

  pub fails :
      (P : State S → Type 0) (conn : ℕ) (o : Outcome (Unit {0} × State S))
      → Goes P (unlock conn (continue o (λ _. pure false)))
  fails P conn (done (_, t)) = tt
  fails P conn (stuck w) = tt

  pub Goes-weaken :
      (P Q : State S → Type 0) (o : Outcome (Bool × State S))
      → Goes Q o
      → ((t : State S) → Q t → P t)
      → Goes P o
  Goes-weaken P Q (done (true, t)) h k = k t h
  Goes-weaken P Q (done (false, t)) h k = tt
  Goes-weaken P Q (stuck w) h k = tt

  pub given_up :
      (P : State S → Type 0) (o : Outcome (Unit {0} × State S))
      → Goes P (continue o (λ _. pure false))
  given_up P (done (_, t)) = tt
  given_up P (stuck w) = tt
