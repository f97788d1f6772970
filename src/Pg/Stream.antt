-- ===== src/Pg/Stream.antt =====
-- src/pg/streaming_query.cpp: StreamingQuery, one query that is streamed through a cursor or
-- executed at once. The members run in one thread. The connection's mutex is modelled: to lock it
-- again while it is held is a deadlock, and to wait in the pool while nobody else runs never ends.
pub mod Request
pub mod State
pub mod Lease
pub mod Cursor
pub mod Query
pub mod Steps
pub mod End
pub mod Deadlock
