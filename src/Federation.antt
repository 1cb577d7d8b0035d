-- ===== src/Federation.antt =====
-- Presence of federated nodes (internal/federation/store.go, internal/presence/types.go).
pub mod Store
pub mod Summaries
pub mod Totals
pub mod Active
pub mod Examples
pub mod Merge
pub mod Pages
