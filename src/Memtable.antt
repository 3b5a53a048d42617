-- ===== src/Memtable.antt =====
-- src/memtable: the in-memory write buffer.
pub mod Node
pub mod SkipList
pub mod MemTable
