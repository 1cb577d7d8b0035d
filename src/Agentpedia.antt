-- ===== src/Agentpedia.antt =====
-- The replay engine of internal/agentpedia/replay.go.
pub mod Value
pub mod State
pub mod Store
pub mod Access
pub mod Draw
pub mod Expiry
pub mod Rulings
pub mod Editors
pub mod Reviews
pub mod Versions
pub mod Revisions
pub mod Replay
pub mod Valid
pub mod Examples
