-- ===== src/Lib.antt =====
-- rust-kvdb: a log-structured key-value store in Rust. A write goes to the write-ahead log, then to
-- the memtable, a skip list. A full memtable is frozen and flushed to an SSTable, a file of sorted
-- blocks with an index and a Bloom filter; the manifest records which tables are at which level, and
-- compaction merges a level into the next. A lookup goes through the memtable and then the tables,
-- the newest first, and reads blocks through a shared cache.
--
-- Which file models which part:
--   src/error.rs              KvError: errors, and a result with a third case for a panic
--   src/wal/record.rs         Wal/Record: Record::encode and Record::decode
--   src/wal/writer.rs         Wal/Writer and Wal/Reader: WALWriter and WALReader; Wal/Crash is about
--                             both
--   src/manifest.rs           Manifest
--   src/sstable/block.rs      Sstable/Block
--   src/sstable/builder.rs    Sstable/Builder: SSTableBuilder
--   src/sstable/reader.rs     Sstable/Reader: SSTableReader and SSTableIterator
--   src/filter/bloom.rs       Bloom
--   src/cache/block_cache.rs  Cache
--   src/memtable/skiplist.rs  Memtable/Node and Memtable/SkipList
--   src/memtable/memtable.rs  Memtable/MemTable
--   src/write_batch.rs        WriteBatch
--   src/compaction/merge_iterator.rs  Merge
--   src/engine.rs             Engine: Value (how values are stored), Read, Flush, Write and Open; Db
--                             for the handle DB that threads share
--   src/http/handler.rs       Http
--   src/bin/cli.rs            Cli
-- SortedMap is the ordered map that the memtable promises, and what is used of BTreeMap. Prelude and
-- Bytes hold what the parts share: lists and tests over the native numbers, little-endian integers,
-- the order of byte strings, and reading at a position. Tests has runs at concrete inputs.
--
-- Conventions. A byte is a number; theorems that need it say that it is below 256. Casts to u16, u32
-- and u64 are remainders. Where Rust panics, the result is `panic`. The raw pointers of the skip list
-- are addresses in an explicit heap, and following a null or dangling one is `none`. A HashMap is an
-- association list. Sums and products of u64 and usize that the input can make overflow wrap, as in a
-- release build. crc32fast, slice::binary_search_by, BinaryHeap::pop, what a dropped BufWriter still
-- holds and the rounding of a floating-point product in the Bloom filter are parameters, and so are
-- the outcomes of writes to the log and the clock.
--
-- Fuel. The loop over the log takes at least four bytes in each round, so its fuel is the length of
-- the file; the walk on a lane visits allocated nodes once, so its fuel is their number; the loop
-- that makes room in the cache takes a key off the order in each round, so its fuel is their number.
--
-- Not modelled: the routing and the HTML page of the HTTP server, the start-up code of the
-- server, failures of file operations other than the appends to the log and its syncs, and memory
-- that runs out.
pub mod Prelude
pub mod Bytes
pub mod KvError
pub mod SortedMap
pub mod Wal
pub mod Manifest
pub mod Sstable
pub mod Cache
pub mod Memtable
pub mod Bloom
pub mod WriteBatch
pub mod Merge
pub mod Engine
pub mod Db
pub mod Http
pub mod Cli
pub mod Tests
