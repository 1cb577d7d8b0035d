-- ===== src/Metatask.antt =====
-- The replay of `/protocols/metatask` pins (internal/metatask).
pub mod Json
pub mod Event
pub mod Votes
pub mod Challenges
pub mod Walk
pub mod Shares
pub mod Examples
pub mod Amend
pub mod Pools
