-- ===== src/Index.antt =====
-- The indexes of src/index: keys.
pub mod Key
pub mod Entry
pub mod BTree
