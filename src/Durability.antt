-- ===== src/Durability.antt =====
-- src/durability: the write-ahead log.
pub mod Wal
