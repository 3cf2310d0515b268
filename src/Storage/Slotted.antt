-- ===== src/Storage/Slotted.antt =====
-- src/storage/slotted.rs: pages with a slot directory and cells.
pub mod Defs
pub mod Cells
pub mod Compact
pub mod Overlap
pub mod Edit
pub mod Layout
pub mod Place
pub mod Insert
