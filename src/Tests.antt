-- ===== src/Tests.antt =====
-- The theorems at concrete inputs, and runs of the definitions.
mod Wal
mod Keys
mod Pages
mod Values
mod Trees
mod Batches
mod Paths
