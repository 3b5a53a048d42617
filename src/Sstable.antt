-- ===== src/Sstable.antt =====
-- src/sstable: the sorted table files.
pub mod Block
pub mod Builder
pub mod Reader
