-- ===== src/Path.antt =====
-- src/path.rs: field paths taken apart once.
pub mod Defs
pub mod Plain
pub mod Single
pub mod Slot
