-- ===== src/Metatask/Walk.antt =====
-- The unified ordered walk of `ReplayV121` (internal/metatask/v121.go): `runWalk`, `applyExpiry` and
-- `activeCycles`. A `*V121Cycle` is shared by three containers and changed in place, so it is an
-- index into `cycles`, and a change of it is a change at that index.
pub mod State
pub mod Locks
pub mod Submissions
pub mod Run
pub mod Cycles
pub mod Quorum
pub mod Owner
pub mod Supersede
pub mod Expiry
