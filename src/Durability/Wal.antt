-- ===== src/Durability/Wal.antt =====
-- src/durability/wal.rs: the write-ahead log of page images.
pub mod Defs
pub mod Scan
pub mod ReadBack
pub mod Seen
pub mod Loop
pub mod Recovery
pub mod Log
pub mod Undo
