-- ===== src/Lib.antt =====
-- trunkdb: the storage core of an embedded document database, as a model and its theorems.
--
-- The program keeps collections of schema-less documents in one file of pages. A document's values
-- are indexed by keys that sort as the values compare; pages hold cells in slots; a batch of
-- changed pages is logged to a write-ahead log (WAL) before the pages are written, and a crash is
-- repaired from it. The parts modelled here are those that the others stand on:
--
--   Base: lists, bytes and little- and big-endian numbers over the native naturals, writes into a
--   buffer, integers; Float: an `f64` as its bits,
--   with `n as f64`; TopBits and Rounding: lemmas on that.
--   DateTime, Document, Query: src/datetime.rs (its calendar over unbounded integers, in
--   DateTime.Civil), src/document.rs and what src/query.rs says of
--   single values (`Op`, `compare` as `compare_values`, `int_vs_float`, `holds`).
--   Index.Key: src/index/key.rs. Defs has the encodings (`encode_value_in`, `compound`) and what
--   reads them (`each_part`, `decode_part`, `compare_part`), Range has `KeyRange`. A `String` and a
--   byte slice are both lists of bytes.
--   Index.Entry: the cells of src/index/leaf.rs and branch.rs. Index.BTree: src/index/btree.rs,
--   over the trait `PageStore` of src/storage/mod.rs as a record of operations on a store's
--   state. Search has the search in a page, Defs what reads a tree, Build and Insert what
--   `insert` does, SortedBuild the build that is only counted, Walk the entries of a range; the
--   others prove. A walk's step runs on fuel, which is more than the leaves it enters. A descent
--   counts the levels left of `MAX_DEPTH`; the list of a tree's pages runs on fuel, which is more
--   than the pages. An error leaves no state: its batch is rolled back.
--   Crc32: src/crc32.rs, by tables.
--   Storage.Page and Storage.Slotted: src/storage/page.rs and src/storage/slotted.rs. A method that
--   takes `&mut self` returns the page as it is after it; a failed assertion is `none`.
--   Storage.Cache: src/storage/cache.rs; the hash map is a function, an index out of bounds is
--   `none`.
--   Durability.Wal: src/durability/wal.rs. Defs has a record's bytes and its reading, Scan what is
--   found in a WAL after a crash, Log what `WalDurability` does to its file. An `io::Result` is a
--   `Result`; the file system's answers are a script that any of the calls may fail by, a write
--   after some of its bytes.
--   Changes: src/changes.rs, the log that a batch keeps of its documents (Defs); Steps says what
--   the steps of a batch and its report do to the documents that are there.
--   Path: src/path.rs, `Path` there as `FieldPath`. A mutable reference to a slot is the function
--   that changes what is in it.
--   FreeSpace: src/free_space.rs; Release: src/release.rs.
--   Tests: the theorems at concrete inputs.
--
-- Machine integers: a length in a page is a `u16`, kept by what the page's layout says; page ids
-- are below 2 ^ 64 where a theorem writes them out. Loops over a WAL's records run on fuel that
-- is one more than the bytes left, and every record takes bytes; `each_part` runs on the key's
-- length, as every part is at least a byte. The clock of the cache runs on one more than its
-- slots.
--
-- Not modelled: the query planner, the count over a B-tree's range, live queries, the catalog,
-- collections, the file store and its locks, which stand on the parts above; text formats and
-- serde; the hardware versions of the CRC, of which the source promises the same results.
pub mod Base
pub mod Changes
pub mod Float
pub mod DateTime
pub mod Document
pub mod Query
pub mod Crc32
pub mod Storage
pub mod Durability
pub mod Index
pub mod FreeSpace
pub mod Path
pub mod Release
pub mod Rounding
pub mod TopBits
mod Tests
