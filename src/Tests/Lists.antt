-- ===== src/Tests/Lists.antt =====
-- Runs of the iterators and of the memtable, and of the index and the filter of a table.
use rust_kvdb.Prelude.{length, [], ◌∷◌, ◌++◌, some, ◌≡◌, All, none, arith}
use rust_kvdb.KvError.{ok}
use rust_kvdb.SortedMap.{lookup, range}
use rust_kvdb.Memtable.Node.{Heap, size_of_skip_list}
use rust_kvdb.Memtable.SkipList.New.{new-IsValid}
use rust_kvdb.Memtable.SkipList.Drop.{drop_lem}
use rust_kvdb.Memtable.SkipList.{SkipList, new, drop, scan}
use rust_kvdb.Memtable.SkipList.Valid.{contents, sentinel, IsValid}
use rust_kvdb.Memtable.SkipList.Scan.{scan-range}
use rust_kvdb.Memtable.MemTable
use rust_kvdb.Memtable.MemTable.{MemTable, insert_all}
use rust_kvdb.Memtable.MemTable.Reads.{or_else, reads_lem}
use rust_kvdb.Bloom
use rust_kvdb.Bloom.{BloomFilter}
use rust_kvdb.Bloom.RoundTrip.{decode-encode_bloom}
use rust_kvdb.Sstable.Block
use rust_kvdb.Sstable.Builder.{SstableBuilder, write_index_block}
use rust_kvdb.Sstable.Builder.Index.{parse_index-write_index_block}
use rust_kvdb.Sstable.Reader.{parse_index}
use rust_kvdb.Tests.Memory.{cell, skip_list, skip_list-IsValid}

scan-range_example :
    scan (b'a' ∷ []) (b'z' ∷ []) skip_list
    ≡ some (range (b'a' ∷ []) (b'z' ∷ []) (contents (cell ∷ [])))
scan-range_example = scan-range skip_list (cell ∷ []) (b'a' ∷ []) (b'z' ∷ []) skip_list-IsValid

abbrev pub memtable : MemTable
memtable = record { active = skip_list; immutable = some skip_list; max_size = 100 }

reads_lem_example :
    (MemTable.get (b'k' ∷ []) memtable
      ≡ some (
          or_else
            (lookup (b'k' ∷ []) (contents (cell ∷ [])))
            (lookup (b'k' ∷ []) (contents (cell ∷ [])))))
    × (MemTable.scan (b'a' ∷ []) (b'z' ∷ []) memtable
        ≡ some (
            insert_all
              (insert_all [] (range (b'a' ∷ []) (b'z' ∷ []) (contents (cell ∷ []))))
              (range (b'a' ∷ []) (b'z' ∷ []) (contents (cell ∷ [])))))
reads_lem_example =
    reads_lem memtable (cell ∷ []) (cell ∷ []) (b'k' ∷ []) (b'a' ∷ []) (b'z' ∷ []) skip_list-IsValid
      skip_list-IsValid

abbrev filter : BloomFilter
filter = record { bits = 5 ∷ []; num_hashes = 7; num_bits = 64 }

decode-encode_bloom_example : Bloom.decode (Bloom.encode filter) ≡ ok filter
decode-encode_bloom_example =
    decode-encode_bloom filter (omega arith) (omega arith) (omega arith) (omega arith, tt)

abbrev builder : SstableBuilder
builder = record {
  file = 1 ∷ 2 ∷ 3 ∷ [];
  current_block = Block.new;
  index_entries = (0, b'k' ∷ []) ∷ [];
  all_keys = [];
  block_size = 4096;
  bytes_written = 3;
}

parse_index-write_index_block_example :
    parse_index ((write_index_block builder).file ++ (9 ∷ [])) (length builder.file)
    ≡ ok builder.index_entries
parse_index-write_index_block_example =
    parse_index-write_index_block builder (9 ∷ []) (omega arith)
      (record { offset_fits = omega arith; key_fits = omega arith }, tt)

drop_lem_example :
    (h' : Heap) × (drop skip_list ≡ some h')
    × All (λ c. h' c.addr ≡ none) (sentinel skip_list ∷ cell ∷ [])
drop_lem_example = drop_lem skip_list (cell ∷ []) skip_list-IsValid

new-IsValid_example :
    (s : SkipList) × (new 16 ≡ some s)
    × IsValid s []
    × (s.max_level ≡ 16)
    × (s.size ≡ size_of_skip_list)
new-IsValid_example = new-IsValid 16 (omega arith)
