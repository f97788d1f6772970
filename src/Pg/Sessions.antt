-- ===== src/Pg/Sessions.antt =====
-- src/pg/session_store.cpp: SessionStore, one pinned connection for each session id. Each member
-- holds the mutex from beginning to end. A session's entry shares ownership of its connection: an
-- entry that is erased ends the connection once no query holds it, which is not modelled here.
pub mod Limit
use mtdd_server.Base.{
  ℕ, suc, Bytes, Bytes-discrete, codes, Bool, true, false, not, Option, none, some, List, [], ◌∷◌,
  length, if◌then◌else◌, is_empty,
}
use mtdd_server.Base.Int.{ℤ, pos, is_positive, ltb_ℤ, int_cast}
use mtdd_server.Base.Maps.{lookup, assign, remove}
use mtdd_server.Base.Results.{Result, ok, throw}

pub record SessionStore : Type 0 where
  pub max_sessions : ℤ
  pub sessions : List (Bytes × ℕ)

-- The constructor.
unfoldable pub make_store : ℤ → SessionStore
make_store max_sessions = record {
  max_sessions = if is_positive max_sessions then max_sessions else pos 1;
  sessions = [];
}

-- What `GetOrCreate` returns: a connection, or a null pointer with the error that it writes. The
-- error is not written where the session id is empty.
pub data Obtained : Type 0 where
  connection : ℕ → Obtained
  nothing : Option Bytes → Obtained

-- static_cast<int>(sessions_.size()) >= max_sessions_
abbrev is_full : SessionStore → Bool
is_full store = not (ltb_ℤ (int_cast (pos (length store.sessions))) store.max_sessions)

-- `health` and `connect` are PqConnection's IsHealthy and Connect over a state `S`.
module _ {S : Type 0} (health : ℕ → S → Bool) (connect : S → Result ℕ × S) where
  -- The end of `GetOrCreate`: the attempt to connect is over.
  unfoldable pub store_connection :
      Bytes → SessionStore → Result ℕ × S → Obtained × SessionStore × S
  store_connection session_id store (throw e, s) = (nothing (some e), store, s)
  store_connection session_id store (ok conn, s) = (
    connection conn,
    record store { sessions = assign Bytes-discrete session_id conn store.sessions },
    s,
  )

  -- Behind the lookup.
  unfoldable pub create : Bytes → SessionStore → S → Obtained × SessionStore × S
  unfolding store_connection
  create session_id store s =
      if is_full store
      then (nothing (some (codes "session limit exceeded")), store, s)
      else store_connection session_id store (connect s)

  -- The lookup's result: an entry that is not healthy goes.
  unfoldable pub reuse : Bytes → Option ℕ → SessionStore → S → Obtained × SessionStore × S
  unfolding create
  reuse session_id none store s = create session_id store s
  reuse session_id (some conn) store s =
      if health conn s
      then (connection conn, store, s)
      else create session_id
          (record store { sessions = remove Bytes-discrete session_id store.sessions }) s

  unfoldable pub get_or_create : Bytes → SessionStore → S → Obtained × SessionStore × S
  unfolding reuse
  get_or_create session_id store s =
      if is_empty session_id
      then (nothing none, store, s)
      else reuse session_id (lookup Bytes-discrete session_id store.sessions) store s

unfoldable pub close_all : SessionStore → SessionStore
close_all store = record store { sessions = [] }

unfoldable pub size : SessionStore → ℕ
size store = length store.sessions
