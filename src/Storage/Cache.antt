-- ===== src/Storage/Cache.antt =====
-- src/storage/cache.rs: pages kept in memory, evicted by a clock.
pub mod Defs
pub mod Agree
pub mod Put
