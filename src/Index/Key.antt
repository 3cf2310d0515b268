-- ===== src/Index/Key.antt =====
-- src/index/key.rs: how values become index keys, byte strings that sort as the values do.
pub mod Defs
pub mod Range
pub mod Before
pub mod Order
pub mod Parts
pub mod Contains
pub mod Sound
pub mod Whole
pub mod Ints
pub mod Numbers
pub mod StartsWith
