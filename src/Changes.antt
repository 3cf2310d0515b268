-- ===== src/Changes.antt =====
-- src/changes.rs: what a batch did to each document.
pub mod Defs
pub mod Entries
pub mod Dropped
pub mod Steps
pub mod Agree
pub mod Replay
