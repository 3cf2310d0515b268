-- ===== src/Storage.antt =====
-- The storage of src/storage: pages and what lies on them.
pub mod Page
pub mod Slotted
pub mod Cache
