-- ===== src/Pg/Sessions/Limit.antt =====
-- The session store under its limit, and what a session id stands for.
use mtdd_server.Base.{
  ℕ, ◌^◌, ◌≤◌, ◌<◌, Bytes, Bytes-discrete, Bool, true, false, Option, none, some, [], ◌∷◌, length,
  ◌≡◌, ◌≢◌, refl, arith, inl, inr, Bool-cases, Option-cases,
}
use mtdd_server.Base.Int.{pos, is_positive, int_cast_small}
use mtdd_server.Base.Maps.{
  lookup, remove, lookup-assign, lookup-remove, length-assign_le, length-remove_le,
}
use mtdd_server.Base.Results.{Result, ok, throw}
use mtdd_server.Pg.Sessions.{
  SessionStore, make_store, Obtained, connection, store_connection, create, reuse, get_or_create,
  is_full,
}

-- The limit is a positive `int`, and the store keeps to it.
pub record IsLimited (store : SessionStore) : Type 0 where
  pub limit : ℕ
  pub limit_is : store.max_sessions ≡ pos limit
  pub limit_fits : limit < 2 ^ 31
  pub within : length store.sessions ≤ limit

pub make_store-IsLimited : (n : ℕ) → n < 2 ^ 31 → IsLimited (make_store (pos n))
unfolding make_store
make_store-IsLimited n h = elim (Bool-cases (is_positive (pos n))) [
  | inl some_sessions ↦
      rw some_sessions (record { limit = n; limit_is = refl; limit_fits = h; within = omega arith })
  | inr one ↦
      rw one (record { limit = 1; limit_is = refl; limit_fits = omega arith; within = omega arith })
]

module _ {S : Type 0} (health : ℕ → S → Bool) (connect : S → Result ℕ × S) where
  store_connection-IsLimited :
      (id : Bytes) (store : SessionStore) (r : Result ℕ × S) (v : IsLimited store)
      → is_full store ≡ false
      → IsLimited (store_connection health connect id store r).1
  unfolding store_connection
  store_connection-IsLimited id store (throw e, s) v h = v
  store_connection-IsLimited id store (ok conn, s) v h = record {
    limit = v.limit;
    limit_is = v.limit_is;
    limit_fits = v.limit_fits;
    within = ground (
      arith,
      v.limit_is,
      v.limit_fits,
      v.within,
      int_cast_small (length store.sessions) (omega (arith, v.limit_fits, v.within)),
      length-assign_le Bytes-discrete id conn store.sessions,
    );
  }

  create-IsLimited :
      (id : Bytes) (store : SessionStore) (s : S)
      → IsLimited store
      → IsLimited (create health connect id store s).1
  unfolding create
  create-IsLimited id store s v = elim (Bool-cases (is_full store)) [
    | inl full ↦ rw full v
    | inr room ↦ rw room (store_connection-IsLimited id store (connect s) v room)
  ]

  reuse-IsLimited :
      (id : Bytes) (found : Option ℕ) (store : SessionStore) (s : S)
      → IsLimited store
      → IsLimited (reuse health connect id found store s).1
  unfolding reuse
  reuse-IsLimited id none store s v = create-IsLimited id store s v
  reuse-IsLimited id (some conn) store s v = elim (Bool-cases (health conn s)) [
    | inl well ↦ rw well v
    | inr ill ↦ rw ill (
        create-IsLimited id (record store { sessions = remove Bytes-discrete id store.sessions }) s
          (record {
            limit = v.limit;
            limit_is = v.limit_is;
            limit_fits = v.limit_fits;
            within = omega (arith, v.within, length-remove_le Bytes-discrete id store.sessions);
          }))
  ]

  -- A store within its limit is within it after GetOrCreate, whatever the session id, the health
  -- of the connection and the result of connecting.
  pub get_or_create-IsLimited :
      (id : Bytes) (store : SessionStore) (s : S)
      → IsLimited store
      → IsLimited (get_or_create health connect id store s).1
  unfolding get_or_create
  get_or_create-IsLimited [] store s v = v
  get_or_create-IsLimited (c ∷ id) store s v =
      reuse-IsLimited (c ∷ id) (lookup Bytes-discrete (c ∷ id) store.sessions) store s v

  -- What a call for `id` returns and does to the connection of each session.
  pub record Binds (id : Bytes) (store : SessionStore) (s : S) (r : Obtained × SessionStore × S)
      : Type 0 where
    pub bound :
        (conn : ℕ) → r.0 ≡ connection conn → lookup Bytes-discrete id r.1.sessions ≡ some conn
    pub reused :
        (conn : ℕ)
        → lookup Bytes-discrete id store.sessions ≡ some conn
        → health conn s ≡ true
        → (r.0 ≡ connection conn) × (r.1.sessions ≡ store.sessions) × (r.2 ≡ s)
    pub others :
        (j : Bytes)
        → j ≢ id
        → lookup Bytes-discrete j r.1.sessions ≡ lookup Bytes-discrete j store.sessions

  store_connection-bound :
      (id : Bytes) (store : SessionStore) (r : Result ℕ × S) (conn : ℕ)
      → (store_connection health connect id store r).0 ≡ connection conn
      → lookup Bytes-discrete id (store_connection health connect id store r).1.sessions ≡ some conn
  unfolding store_connection
  store_connection-bound id store (throw e, s) conn h = cc
  store_connection-bound id store (ok c, s) conn h =
      ground (arith, lookup-assign Bytes-discrete id id c store.sessions)

  store_connection-others :
      (id : Bytes) (store : SessionStore) (r : Result ℕ × S) (j : Bytes)
      → j ≢ id
      → lookup Bytes-discrete j (store_connection health connect id store r).1.sessions
        ≡ lookup Bytes-discrete j store.sessions
  unfolding store_connection
  store_connection-others id store (throw e, s) j h = refl
  store_connection-others id store (ok c, s) j h =
      ground (arith, lookup-assign Bytes-discrete id j c store.sessions)

  create-bound :
      (id : Bytes) (store : SessionStore) (s : S) (conn : ℕ)
      → (create health connect id store s).0 ≡ connection conn
      → lookup Bytes-discrete id (create health connect id store s).1.sessions ≡ some conn
  unfolding create
  create-bound id store s conn h = ground (arith, store_connection-bound id store (connect s) conn)

  create-others :
      (id : Bytes) (store : SessionStore) (s : S) (j : Bytes)
      → j ≢ id
      → lookup Bytes-discrete j (create health connect id store s).1.sessions
        ≡ lookup Bytes-discrete j store.sessions
  unfolding create
  create-others id store s j h = ground (arith, store_connection-others id store (connect s) j)

  -- GetOrCreate for a session id that is not empty returns the session's connection while that is
  -- healthy, and then changes nothing; a connection that it returns is bound to the session id
  -- afterwards; and no other session changes.
  pub get_or_create-Binds :
      (id : Bytes) (store : SessionStore) (s : S)
      → id ≢ []
      → Binds id store s (get_or_create health connect id store s)
  unfolding get_or_create reuse
  get_or_create-Binds [] store s h = absurd (h refl)
  get_or_create-Binds (c ∷ id) store s h =
      let smaller = record store { sessions = remove Bytes-discrete (c ∷ id) store.sessions } in
      elim (Option-cases (lookup Bytes-discrete (c ∷ id) store.sessions)) [
        | inl e ↦
            rw (e, get_or_create, reuse)
              (record {
                bound = create-bound (c ∷ id) store s;
                reused = λ conn f w. absurd (cc);
                others = create-others (c ∷ id) store s;
              })
        | inr (old, e) ↦ record {
          bound = λ conn b. ground (arith, e, create-bound (c ∷ id) smaller s conn);
          reused = λ conn f w. ground arith;
          others = λ j ne. ground (
            arith,
            e,
            create-others (c ∷ id) smaller s j ne,
            lookup-remove Bytes-discrete (c ∷ id) j store.sessions,
          );
        }
      ]
