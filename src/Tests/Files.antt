-- ===== src/Tests/Files.antt =====
-- Runs of the builder and the reader of a table, and of writes that fail.
use rust_kvdb.Prelude.{All, ℕ, ◌<◌, ◌^◌, List, [], ◌∷◌, ◌++◌, some, none, Option, ◌≡◌, refl, arith}
use rust_kvdb.Bytes.{Bytes}
use rust_kvdb.Bytes.Le.{to_le_bytes, from_le_bytes}
use rust_kvdb.Bytes.Cursor.{sized}
use rust_kvdb.Bytes.Order.{compare_bytes}
use rust_kvdb.KvError.{other, Result, ok, err, io}
use rust_kvdb.Cache
use rust_kvdb.Cache.{CacheKey, BlockCache}
use rust_kvdb.Cache.Valid.{new-IsValid}
use rust_kvdb.SortedMap.{Entries}
use rust_kvdb.Wal.Writer.{Write, Sync, WalWriter}
use rust_kvdb.Sstable.Block.RoundTrip.{IsEntry}
use rust_kvdb.Sstable.Block.{Block, encode, prefix_shared_len}
use rust_kvdb.Sstable.Builder
use rust_kvdb.Sstable.Builder.{finish}
use rust_kvdb.Engine.Flush.{add_entries}
use rust_kvdb.Sstable.Reader.{SstableReader, open_with_cache, iter, read_block, load_block, Search}
use rust_kvdb.Sstable.Reader.Cached.{IsCoherent, Coherent, load_block_lem}
use rust_kvdb.Engine.Read.{get}
use rust_kvdb.Engine.Flush.Tables.{table_file, size_of, iter-table_file}
use rust_kvdb.Engine.Write.Run.{put, request}
use rust_kvdb.Engine.Write.Failure.{failed, request-failed, at_write}
use rust_kvdb.Tests.Log.{checksum}
use rust_kvdb.Tests.Writes.{engine}

abbrev pub entries : Entries
entries = (b'a' ∷ [], 1 ∷ []) ∷ (b'b' ∷ [], []) ∷ []

pub small : size_of (table_file (λ n. n) 16 entries) < 2 ^ 32
unfolding add_entries finish Builder.new to_le_bytes sized compare_bytes prefix_shared_len
small = omega arith

pub entries-fit : All IsEntry entries
entries-fit = (
  record { key_fits = omega arith; value_fits = omega arith },
  (record { key_fits = omega arith; value_fits = omega arith }, tt),
)

iter-table_file_example :
    (contents : Bytes) × (table_file (λ n. n) 16 entries ≡ ok contents)
    × (r : SstableReader) × (open_with_cache contents 3 ≡ ok r)
    × ((iter r none).1 ≡ ok entries)
    × ((iter r (some (Cache.new 100))).1 ≡ ok entries)
iter-table_file_example = iter-table_file (λ n. n) 16 entries 3 100 entries-fit (omega arith) small

request-failed_example :
    (log : WalWriter) × (more : Bytes) × (request checksum
        (λ n. n)
        (λ w. 0)
        0
        (Write.failed 3 other)
        Sync.done
        (put (b'a' ∷ []) (1 ∷ []))
        engine
      ≡ (failed engine log, err (io other)))
    × (log.synced ≡ [])
    × (log.pending ≡ [] ++ more)
    × ((binary_search : List Bytes → Bytes → Search) (later : ℕ) (key : Bytes)
        → (get binary_search later key (failed engine log)).1
          ≡ (get binary_search later key engine).1)
request-failed_example =
    request-failed checksum (λ n. n) (λ w. 0) 0 (Write.failed 3 other) Sync.done
      (put (b'a' ∷ []) (1 ∷ [])) engine other (at_write 3 Sync.done)

abbrev block : Block
block = record { entries = (b'k' ∷ [], []) ∷ []; encoded_size = 9 }

abbrev reader : SstableReader
reader = record {
  contents = encode block;
  index = (0, b'k' ∷ []) ∷ [];
  index_offset = 13;
  bloom = record { bits = []; num_hashes = 1; num_bits = 64 };
  sst_id = 3;
}

abbrev disk : CacheKey → Result Block
disk k = read_block reader k.block_idx

cache-IsCoherent : IsCoherent disk (Cache.new 100)
unfolding Cache.lookup
cache-IsCoherent = record { valid = new-IsValid 100; same = λ k s e. absurd (cc e) }

reads : read_block reader 0 ≡ ok block
unfolding read_block encode to_le_bytes from_le_bytes sized prefix_shared_len
reads = refl

load_block_lem_example :
    (cache' : Option BlockCache) × (load_block reader 0 (some (Cache.new 100)) ≡ (cache', ok block))
    × Coherent disk cache'
load_block_lem_example =
    load_block_lem disk reader 0 block (some (Cache.new 100)) cache-IsCoherent refl reads
