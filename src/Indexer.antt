-- ===== src/Indexer.antt =====
-- The block and mempool loops of the indexer (internal/indexer/engine.go).
pub mod Blocks
pub mod Dedupe
pub mod Examples
pub mod Mempool
pub mod Passes
pub mod Skipped
