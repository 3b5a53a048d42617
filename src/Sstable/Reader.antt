-- ===== src/Sstable/Reader.antt =====
-- src/sstable/reader.rs: an opened SSTable. `binary_search` is `slice::binary_search_by` over the
-- keys of a slice. The cache that the readers share is an argument and comes back with the result.
pub mod Blocks
pub mod Cached
pub mod Lookup
pub mod Choose
pub mod Get
use rust_kvdb.Prelude.{
  ℕ, zero, suc, ◌+◌, ◌-◌, ltb, if◌then◌else◌, true, false, ◌||◌, Option, none, some, List, [], ◌∷◌,
  ◌++◌, length, get_elem?, map, String,
}
use rust_kvdb.Bytes.{Bytes}
use rust_kvdb.Bytes.Cursor.{slice, u32_at}
use rust_kvdb.KvError.{num, KvError, corruption, Result, ok, err, panic, ◌>>=◌}
use rust_kvdb.Bloom
use rust_kvdb.Bloom.{BloomFilter}
use rust_kvdb.Cache
use rust_kvdb.Cache.{CacheKey, BlockCache}
use rust_kvdb.Sstable.Block
use rust_kvdb.Sstable.Block.{Block, Entry}

pub record SstableReader : Type 0 where
  pub contents : Bytes
  pub index : List (ℕ × Bytes)
  pub index_offset : ℕ
  pub bloom : BloomFilter
  pub sst_id : ℕ

-- What `binary_search_by` returns.
pub data Search : Type 0 where
  found : ℕ → Search
  missing : ℕ → Search

abbrev pub plain : String → KvError
plain s = corruption (record { format = s; args = [] })

-- `for _ in 0..num`
unfoldable pub parse_entries : ℕ → Bytes → ℕ → Result (List (ℕ × Bytes))
parse_entries zero buf pos = ok []
parse_entries (suc n) buf pos =
    if ltb (length buf) (pos + 8)
    then err (plain "index entry truncated")
    else let key_len = u32_at buf (pos + 4) in
      let rest = parse_entries n buf (pos + 8 + key_len) in
      if ltb (length buf) (pos + 8 + key_len)
      then err (plain "index entry key truncated")
      else (do entries ← rest; ok ((u32_at buf pos, slice buf (pos + 8) key_len) ∷ entries))

unfoldable pub parse_index : Bytes → ℕ → Result (List (ℕ × Bytes))
unfolding parse_entries
parse_index buf offset =
    if ltb (length buf) (offset + 4)
    then err (plain "index block too short")
    else parse_entries (u32_at buf offset) buf (offset + 4)

-- `open_with_cache`, from the bytes of the file. The range `bloom_offset..bloom_end` panics where
-- it runs backwards.
unfoldable pub open_with_cache : Bytes → ℕ → Result SstableReader
unfolding parse_index Bloom.decode
open_with_cache contents sst_id =
    let len = length contents in
    let index_offset = u32_at contents (len - 8) in
    let bloom_offset = u32_at contents (len - 4) in
    let bloom_end = len - 8 in
    if ltb len 8 then err (plain "SSTable file too short") else (do
      index ← parse_index contents index_offset
      bloom ←
          if ltb bloom_end bloom_offset
          then panic
          else Bloom.decode (slice contents bloom_offset (bloom_end - bloom_offset))
      ok (record {
        contents = contents;
        index = index;
        index_offset = index_offset;
        bloom = bloom;
        sst_id = sst_id;
      }))

-- A step that may use the cache.
abbrev pub Cached : Type 0 → Type 0
Cached A = Option BlockCache → Option BlockCache × Result A

-- `cache.lock().unwrap().put(key, block)`, if there is a cache
abbrev pub put_cached : CacheKey → Block → Cached Block
put_cached key block none = (none, ok block)
put_cached key block (some cache) = elim (Cache.put key block cache) [
  | ok cache' ↦ (some cache', ok block)
  | err e ↦ (some cache, err e)
  | panic ↦ (some cache, panic)
]

abbrev pub get_cached : CacheKey → Option BlockCache → Option BlockCache × Option Block
get_cached key none = (none, none)
get_cached key (some cache) = let p = Cache.get key cache in (some p.0, p.1)

abbrev out_of_range : ℕ → ℕ → ℕ → KvError
out_of_range block_idx start end = corruption (record {
  format = "block {} offset out of range: {}..{}";
  args = num block_idx ∷ num start ∷ num end ∷ [];
})

-- Where a block ends: at the next one, or at the index.
abbrev pub block_end : SstableReader → ℕ → ℕ
block_end r block_idx = elim (get_elem? r.index (suc block_idx)) [
  | some e ↦ e.0
  | none ↦ r.index_offset
]

-- The block from the file.
unfoldable pub read_block : SstableReader → ℕ → Result Block
unfolding Block.decode
read_block r block_idx = elim (get_elem? r.index block_idx) [
  | none ↦ panic
  | some e ↦
      let end = block_end r block_idx in
      if ltb (length r.contents) end || ltb end e.0
      then err (out_of_range block_idx e.0 end)
      else Block.decode (slice r.contents e.0 (end - e.0))
]

-- `load_block`, from the answer of the cache on
abbrev pub read_through :
    SstableReader
    → ℕ
    → CacheKey
    → Option BlockCache × Option Block
    → Option BlockCache × Result Block
read_through r block_idx key (cache, some block) = (cache, ok block)
read_through r block_idx key (cache, none) = elim (read_block r block_idx) [
  | ok block ↦ put_cached key block cache
  | err e ↦ (cache, err e)
  | panic ↦ (cache, panic)
]

unfoldable pub load_block : SstableReader → ℕ → Cached Block
unfolding read_block Cache.get Cache.put
load_block r block_idx cache =
    let key : CacheKey = record { sst_id = r.sst_id; block_idx = block_idx } in
    read_through r block_idx key (get_cached key cache)

module _ (binary_search : List Bytes → Bytes → Search) where
  -- `block.entries[i].1`, where the search finds the key
  unfoldable pub find_entry : Bytes → Block → Result (Option Bytes)
  find_entry key block = elim (binary_search (map (λ e. e.0) block.entries) key) [
    | missing i ↦ ok none
    | found i ↦ elim (get_elem? block.entries i) [ none ↦ panic | some e ↦ ok (some e.1) ]
  ]

  -- The block that may hold the key.
  unfoldable pub find_block : Bytes → SstableReader → Option ℕ
  find_block key r = elim (binary_search (map (λ e. e.1) r.index) key) [
    | found i ↦ some i
    | missing i ↦ if ltb i (length r.index) then some i else none
  ]

  abbrev pub get_in_block :
      Bytes → Option BlockCache × Result Block → Option BlockCache × Result (Option Bytes)
  get_in_block key (cache, ok block) = (cache, find_entry key block)
  get_in_block key (cache, err e) = (cache, err e)
  get_in_block key (cache, panic) = (cache, panic)

  unfoldable pub get : Bytes → SstableReader → Cached (Option Bytes)
  unfolding find_entry find_block load_block Bloom.may_contain
  get key r cache = elim (Bloom.may_contain key r.bloom) [
    | ok false ↦ (cache, ok none)
    | ok true ↦ elim (find_block key r) [
      | none ↦ (cache, ok none)
      | some i ↦ get_in_block key (load_block r i cache)
    ]
    | err e ↦ (cache, err e)
    | panic ↦ (cache, panic)
  ]

-- The entries of a loaded block, and what the `rest` of the iteration yields. A block that does
-- not load ends the loop without an error.
abbrev pub then_rest :
    Cached (List Entry) → Option BlockCache × Result Block → Option BlockCache × Result (List Entry)
then_rest rest (cache, ok block) =
    let (cache', later) = rest cache in (cache', later >>= λ entries. ok (block.entries ++ entries))
then_rest rest (cache, err e) = (cache, ok [])
then_rest rest (cache, panic) = (cache, panic)

-- All that the `SSTableIterator` yields in a `for` loop, from a block on, with as many blocks left.
unfoldable pub iterator : ℕ → ℕ → SstableReader → Cached (List Entry)
unfolding load_block
iterator zero block_idx r cache = (cache, ok [])
iterator (suc n) block_idx r cache =
    then_rest (iterator n (suc block_idx) r) (load_block r block_idx cache)

unfoldable pub iter : SstableReader → Cached (List Entry)
unfolding iterator
iter r cache = iterator (length r.index) 0 r cache
