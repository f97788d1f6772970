-- ===== src/Lib.antt =====
-- mtdd_server is a gRPC server in front of one PostgreSQL server: it pools connections, pins
-- sessions to connections, streams the results of queries in batches, and relays notifications to
-- watching clients.
--
-- The files, and the code that they model:
--   Notify/ChannelKey.antt    src/notify/channel_key.cpp
--   Notify/Registry.antt      src/notify/registry.cpp, NotifyRegistry; Notify/Index.antt is a map
--                             from keys to sets, of which the registry has three
--   Notify/Service.antt       src/service/mtdd_notify_service.cpp, which calls the registry
--   Pg/Libpq.antt             the part of libpq that is called, as a parameter
--   Pg/Conn.antt              src/pg/pq_conn.cpp, PqConnection
--   Pg/Pool.antt              src/pg/connection_manager.cpp, ConnectionManager
--   Pg/Sessions.antt          src/pg/session_store.cpp, SessionStore
--   Pg/Stream.antt            src/pg/streaming_query.cpp, StreamingQuery: its state, and the monad of
--                             its members, in Stream/State.antt; the connection from the pool or
--                             the session store in Stream/Lease.antt; the transaction and the
--                             cursor in Stream/Cursor.antt; Open, Fetch, Close and Abort in
--                             Stream/Query.antt; the request in Stream/Request.antt
--   Pg/Executor.antt          src/pg/query_executor.cpp, QueryExecutor
--   Codec/RawBatch.antt       src/codec/raw_batch_encoder.cpp; Codec/RawBatch/Decode.antt is the
--                             framing of integration/lib/pg-binary-decode.js, which reads it
--   Codec/FlexMeta.antt       src/codec/flex_meta.cpp
--   Codec/QueryMeta.antt      src/codec/query_meta.cpp
--   Health/Monitor.antt       src/health/pg_health_monitor.cpp, which probes with PqConnection
--   Config/*.antt             src/config.cpp
--   Unix/*.antt               src/unix/unix_socket.cpp: the path rules in Path.antt, EnsureDirectory
--                             in Listen.antt, the socket file and ScopedListen in Socket.antt
--   Shard/*.antt              src/service/mtdd_shard_service.cpp, MtddShardServiceImpl: Connect and
--                             Disconnect in Service.antt; QueryStream in QueryStream.antt, its loop
--                             in Loop.antt and Rounds.antt, and the chunks it writes in Chunks.antt.
--                             The loop works on a query that is an interface; Streaming.antt fills
--                             it by StreamingQuery. What a call sends to the server is in
--                             Sending.antt and Dialogue.antt, and what it takes from the pool and
--                             the sessions in Leases.antt
--   Log.antt                  src/logging.h
--   Main.antt                 src/main.cpp: main and the signal handler, over the listener, the
--                             monitor and the configuration
--   Base/*.antt               shared: texts, integers, decimals, sets, maps, results
-- The other modules below these hold the proofs, and the modules named Tests concrete examples.
--
-- State is a record for each class, with the fields of the class; a member function takes the
-- state and returns it. A function that holds a mutex from beginning to end is one step; one that
-- lets go of it is cut there. In Pg/Pool/Accounting.antt the steps of all users of a pool form a
-- relation, so that its theorems hold for every interleaving. In Pg/Stream/State.antt the mutexes
-- are modelled: a thread that locks a mutex which it holds is stuck. Texts are lists of bytes. An
-- `int` that comes from a wider type is cut to 32 bits as written in the code; `in_use_` and the
-- counters are not near their limits and do not wrap. Exceptions are values of the type Result.
-- Loops are recursions on the list or the number that they run over, or on fuel: `to_string` has n
-- + 1 for the number n, which has no more digits than that; the loop over the batches of a result
-- has one more than its rows; EnsureDirectory, ProbeLoop and the loop of QueryStream take the fuel
-- as an argument, and the results below say how much is enough. A run that has no fuel left is a
-- value of its own, and no result. What the other threads do while ProbeLoop or the loop of Watch
-- sleeps is a list of their calls for each turn.
--
-- Not modelled: gRPC, libpq and the operating system, which are parameters where they are called,
-- as is the order in which calls and signals come while the server runs; the byte format of
-- flexbuffers; the branches for Windows; log lines, where they are written; the wake-ups of
-- condition variables; calls of the shard service that run at once; the time at which a shared
-- connection is destroyed; and, in the client's decoder, what becomes of a cell's bytes and what
-- JavaScript makes of a column with the name `__proto__`. That a cursor is finite is a hypothesis on
-- the server for the cursor of the query at hand alone, Shard/Streaming.antt's `Drains`.
mod Base
pub mod Notify
pub mod Unix
pub mod Config
pub mod Pg
pub mod Codec
pub mod Health
pub mod Shard
pub mod Log
pub mod Main
