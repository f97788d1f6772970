-- ===== src/Codec.antt =====
-- src/codec: the wire formats of the results.

pub mod RawBatch
pub mod FlexMeta
pub mod QueryMeta
mod Tests
