-- ===== src/Shard/Replies.antt =====
-- What Connect and QueryStream (src/service/mtdd_shard_service.cpp) refuse, and what a refusal leaves
-- as it was.
use mtdd_server.Base.{ap}
use mtdd_server.Base.{
  ℕ, ◌≤◌, ◌<◌, ◌^◌, Bytes, true, false, ◌||◌, Option, none, some, [], ◌∷◌, length, is_empty,
  Bool-cases, inl, inr, ◌≡◌, ◌↔◌, ◌⊎◌, refl, subst, arith,
}
use mtdd_server.Base.Int.{ℤ, pos, negsuc, equal_ℤ, ltb_ℤ, int_cast, int_cast_small}
use mtdd_server.Base.Results.{Result, ok, throw}
use mtdd_server.Config.{ServerConfig}
use mtdd_server.Pg.Libpq.{Libpq}
use mtdd_server.Pg.Conn
use mtdd_server.Pg.Conn.{ConnectParams, World}
use mtdd_server.Pg.Pool
use mtdd_server.Pg.Pool.{ConnectionManager}
use mtdd_server.Pg.Stream.Request.{QueryRequest}
use mtdd_server.Shard.Service.{
  ConnectRequest, Response, Shard, build_connect_params, validate_host_index, ensure_query_request,
  connected, connect_pool, connect_checked, connect, resolve_db_name,
}
use mtdd_server.Shard.QueryStream.{refused_request, refused_query}

module _ {S : Type 0} where
  -- What a Connect with these parameters leaves to QueryStream, by its response.
  abbrev pub Registers : Shard S → ConnectParams → Response × Shard S → Type 0
  Registers s params (response, s') =
      (s'.sessions ≡ s.sessions)
      × (s'.config ≡ s.config)
      × (((response.accepted ≡ true)
            × (s'.connect_params ≡ some params)
            × (s'.has_executor ≡ true)
            × (s'.pool.params ≡ params))
          ⊎ ((response.accepted ≡ false)
              × (s'.connect_params ≡ s.connect_params)
              × (s'.has_executor ≡ s.has_executor)
              × ((s'.pool ≡ s.pool) ⊎ (s'.pool.params ≡ params))))

  -- Which requests may be accepted.
  abbrev pub IsValid : ConnectRequest → Shard S → Type 0
  IsValid request s =
      (validate_host_index s.config request.host_index ≡ none)
      × (is_empty (resolve_db_name request) ≡ false)
      × (is_empty request.user ≡ false)

module _ {S : Type 0} (pq : Libpq S) where
  connected-Registers :
      (params : ConnectParams) (opened : Result ℕ) (pool : ConnectionManager) (w : World S)
      (s : Shard S)
      → pool.params ≡ params
      → Registers s params (connected pq params (Pool.connect opened pool) w s)
  unfolding Pool.connect
  connected-Registers params (ok conn) pool w s p = (refl, refl, inl (refl, refl, refl, p))
  connected-Registers params (throw e) pool w s p = (refl, refl, inr (refl, refl, refl, inr p))

  pool-Registers :
      (params : ConnectParams) (s : Shard S) → Registers s params (connect_pool pq params s)
  unfolding connect_pool Pool.configure
  pool-Registers params s =
      let pool = Pool.configure params s.config.pool_size s.pool in
      let opened = Conn.connect pq pool.params (pos 0) s.world in
      connected-Registers params opened.0 pool opened.1 s refl

  abbrev Replies : ConnectRequest → Shard S → Response × Shard S → Type 0
  Replies request s (response, s') =
      Registers s (build_connect_params s.config request) (response, s')
      × ((response.accepted ≡ true) → IsValid request s)

  checked-Replies :
      (request : ConnectRequest) (s : Shard S) (message : Option Bytes)
      → validate_host_index s.config request.host_index ≡ message
      → Replies request s (connect_checked pq message request s)
  unfolding build_connect_params
  checked-Replies request s (some m) e =
      ((refl, refl, inr (refl, refl, refl, inl refl)), λ a. absurd cc)
  checked-Replies request s none e =
      let params = build_connect_params s.config request in
      elim (Bool-cases (is_empty (resolve_db_name request) || is_empty request.user)) [
        | inl f ↦ rw f ((refl, refl, inr (refl, refl, refl, inl refl)), λ a. absurd cc)
        | inr f ↦ rw f (pool-Registers params s, λ a. (e, ground arith, ground arith))
      ]

  -- Connect changes neither the sessions nor the configuration. If it accepts, the request's host
  -- index is valid and the names of the database and the user are not empty, and its parameters
  -- are those of the pool and of later queries; if it does not, the service keeps the parameters
  -- for later queries that it had, if any, and the pool is as it was or has taken the parameters
  -- of the request.
  pub connect-Registers :
      (request : ConnectRequest) (s : Shard S)
      → Registers s (build_connect_params s.config request) (connect pq request s)
        × (((connect pq request s).0.accepted ≡ true) → IsValid request s)
  unfolding connect
  connect-Registers request s =
      checked-Replies request s (validate_host_index s.config request.host_index) refl

  -- A Connect with a valid request whose connection cannot be made answers with the error, and
  -- leaves the parameters of later queries as they were, but the shared pool already has the
  -- parameters of the failed request.
  pub connect-failed :
      (request : ConnectRequest) (s : Shard S) (e : Bytes)
      → IsValid request s
      → (Conn.connect pq (build_connect_params s.config request) (pos 0) s.world).0 ≡ throw e
      → let (response, s') = connect pq request s in
        (response ≡ record { accepted = false; message = e })
        × (s'.pool.params ≡ build_connect_params s.config request)
        × (s'.connect_params ≡ s.connect_params)
        × (s'.has_executor ≡ s.has_executor)
  unfolding connect connect_pool Pool.connect Pool.configure build_connect_params
  connect-failed request s e v f = rw (v.0, v.1, v.2, f) (refl, refl, refl, refl)

is_empty-true : (s : Bytes) → is_empty s ≡ true → s ≡ []
is_empty-true [] e = refl
is_empty-true (c ∷ s) e = absurd cc

equal_one : (n : ℤ) → equal_ℤ n (pos 1) ≡ true → n ≡ pos 1
equal_one (pos n) e = ap pos (ground arith)
equal_one (negsuc n) e = absurd cc

within : (limit n : ℕ) → ltb_ℤ (pos limit) (pos n) ≡ false → n ≤ limit
within limit n e = ground arith

-- The tests that a request has passed.
passes :
    (config : ServerConfig) (request : QueryRequest) (index : Option Bytes)
    → refused_query config request index ≡ none
    → (index ≡ none)
      × (is_empty request.name ≡ true)
      × (equal_ℤ request.result_format (pos 1) ≡ true)
      × (ltb_ℤ config.max_query_text_bytes (int_cast (pos (length request.text))) ≡ false)
unfolding ensure_query_request
passes config request (some message) e = absurd cc
passes config request none e = ground arith

-- A query whose text is shorter than 2^31 bytes passes the checks exactly if its host index is
-- accepted, it names no prepared statement, its result format is binary, and its text is not
-- longer than MTDD_MAX_QUERY_TEXT_BYTES.
pub refused_request-none :
    (config : ServerConfig) (request : QueryRequest) (limit : ℕ)
    → config.max_query_text_bytes ≡ pos limit
    → length request.text < 2 ^ 31
    → (refused_request config request ≡ none) ↔ (
        (validate_host_index config request.host_index ≡ none)
        × (request.name ≡ [])
        × (request.result_format ≡ pos 1)
        × (length request.text ≤ limit))
unfolding refused_request ensure_query_request
refused_request-none config request limit m l = (
  λ h.
      let k = passes config request (validate_host_index config request.host_index) h in
      (
        k.0,
        is_empty-true request.name k.1,
        equal_one request.result_format k.2,
        within limit (length request.text) (
            subst (λ n. ltb_ℤ n (pos (length request.text)) ≡ false) m
              (subst (λ n. ltb_ℤ config.max_query_text_bytes n ≡ false)
                (int_cast_small (length request.text) l) k.3)),
      ),
  λ h. rw (h.0, h.1, h.2, m, int_cast_small (length request.text) l) (ground arith),
)
