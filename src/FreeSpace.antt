-- ===== src/FreeSpace.antt =====
-- `FreeSpace` of src/free_space.rs: the data pages with room, by their free bytes. The sorted set is
-- its elements in order, and the map from pages a function.
pub mod Defs
pub mod Agree
