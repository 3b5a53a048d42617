-- ===== src/Tests/Flush.antt =====
-- A flush of a frozen memtable, and lookups after it.
use rust_kvdb.Prelude.{ℕ, ◌^◌, ◌<◌, none, [], ◌∷◌, All, ◌≡◌, arith}
use rust_kvdb.Bytes.{Bytes}
use rust_kvdb.Bytes.Le.{to_le_bytes}
use rust_kvdb.Bytes.Cursor.{sized}
use rust_kvdb.Bytes.Order.{compare_bytes}
use rust_kvdb.KvError.{Result, ok}
use rust_kvdb.SortedMap.{Entries}
use rust_kvdb.Manifest
use rust_kvdb.Memtable.SkipList.Valid.{contents}
use rust_kvdb.Cache.{CacheKey}
use rust_kvdb.Sstable.Block.{Block, prefix_shared_len}
use rust_kvdb.Sstable.Block.RoundTrip.{IsEntry}
use rust_kvdb.Sstable.Builder
use rust_kvdb.Sstable.Builder.{finish}
use rust_kvdb.Sstable.Reader.{SstableReader, open_with_cache, read_block}
use rust_kvdb.Sstable.Reader.Get.{IsTable}
use rust_kvdb.Engine.{Engine}
use rust_kvdb.Engine.Flush.{add_entries}
use rust_kvdb.Engine.Flush.Tables.{table_file, size_of, table_file_lem}
use rust_kvdb.Tests.Memory.{cell}
use rust_kvdb.Tests.Lists.{memtable}
use rust_kvdb.Tests.Writes.{engine}

abbrev frozen : Entries
frozen = contents (cell ∷ [])

abbrev frozen_engine : Engine
frozen_engine = record engine {
  wal = record { synced = 9 ∷ []; pending = 7 ∷ 8 ∷ 9 ∷ [] };
  memtable = memtable;
  sst_readers = [];
  block_cache = none;
}

abbrev block_size : ℕ
block_size = frozen_engine.opts.block_size

frozen-small : size_of (table_file (λ n. n) block_size frozen) < 2 ^ 32
unfolding add_entries finish Builder.new to_le_bytes sized compare_bytes prefix_shared_len
frozen-small = omega arith

frozen-fit : All IsEntry frozen
frozen-fit = (record { key_fits = omega arith; value_fits = omega arith }, tt)

abbrev flushed :
    (contents : Bytes) × (table_file (λ n. n) block_size frozen ≡ ok contents)
    × (r : SstableReader) × (open_with_cache contents frozen_engine.next_sst_id ≡ ok r)
    × IsTable r frozen
    × (r.sst_id ≡ frozen_engine.next_sst_id)
flushed =
    table_file_lem (λ n. n) block_size frozen frozen_engine.next_sst_id frozen-fit (omega arith)
      frozen-small

abbrev flushed_disk : CacheKey → Result Block
flushed_disk k = read_block flushed.2 k.block_idx
