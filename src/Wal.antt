-- ===== src/Wal.antt =====
-- src/wal: the write-ahead log.
pub mod Record
pub mod Writer
pub mod Reader
pub mod Crash
