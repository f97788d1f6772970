-- ===== src/Shard.antt =====
-- src/service/mtdd_shard_service.cpp: MtddShardServiceImpl, the RPCs on the database.
pub mod Chunks
pub mod Loop
pub mod Rounds
pub mod Contract
pub mod Writes
pub mod Exits
pub mod Protocol
pub mod Ending
pub mod Streaming
pub mod Service
pub mod QueryStream
pub mod Start
pub mod Sending
pub mod Leases
pub mod Answers
pub mod Batches
pub mod Delivery
pub mod Transfer
pub mod Split
pub mod AllRows
pub mod Replies
pub mod Dialogue
pub mod Statements
pub mod Pinning
pub mod Tests
