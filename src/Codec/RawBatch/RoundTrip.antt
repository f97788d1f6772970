-- ===== src/Codec/RawBatch/RoundTrip.antt =====
-- The client decodes a batch to the very cells that libpq returned, under the names of their
-- columns.
use mtdd_server.Base.{List}
