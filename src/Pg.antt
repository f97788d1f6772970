-- ===== src/Pg.antt =====
-- src/pg: connections, the pool, the session store, the executor and the streaming query.
pub mod Libpq
pub mod Conn
pub mod Pool
pub mod Sessions
pub mod Stream
pub mod Executor
mod Tests
