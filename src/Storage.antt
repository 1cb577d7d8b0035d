-- ===== src/Storage.antt =====
-- The namespaces of keys and values (internal/storage/pebble.go). Pebble is a third-party library:
-- a parameter with the behaviour that its documentation gives.
pub mod Contents
pub mod Examples
pub mod Keys
pub mod Memory
pub mod Pebble
pub mod Removal
pub mod Scans
pub mod Store
