-- ===== src/Index/BTree.antt =====
-- src/index/btree.rs: the B-tree of index pages.
pub mod Search
pub mod First
pub mod Defs
pub mod Sorted
pub mod Node
pub mod Tree
pub mod SortedBuild
pub mod Walk
pub mod InRange
pub mod Nearest
pub mod Counted
pub mod Build
pub mod Fill
pub mod Midpoint
pub mod Pages
pub mod Insert
pub mod Split
pub mod SplitLeaf
pub mod SplitBranch
