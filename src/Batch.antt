-- ===== src/Batch.antt =====
-- The primitives of the bulk tools (internal/batch): the store of confirmation tokens, and the
-- executor with bounded concurrency.
pub mod Store
pub mod Execute
mod Tests
