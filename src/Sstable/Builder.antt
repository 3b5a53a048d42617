-- ===== src/Sstable/Builder.antt =====
-- src/sstable/builder.rs: writing an SSTable file. Writes to the file succeed here; one that fails
-- ends the build with its error. `ln2_rounded` is the parameter of the Bloom filter.
pub mod Index
pub mod Layout
pub mod Finish
use rust_kvdb.Prelude.{ℕ, ◌+◌, ltb, if◌then◌else◌, not, ◌&&◌, List, [], ◌∷◌, ◌++◌, length, is_empty}
use rust_kvdb.Bytes.{Bytes}
use rust_kvdb.Bytes.Le.{to_le_bytes}
use rust_kvdb.Bytes.Cursor.{as_u32, sized}
use rust_kvdb.KvError.{Result, ok, ◌>>=◌}
use rust_kvdb.Bloom
use rust_kvdb.Sstable.Block
use rust_kvdb.Sstable.Block.{Block, estimated_size, last_key}

-- `DEFAULT_BLOCK_SIZE` and `DEFAULT_BITS_PER_KEY`
abbrev pub default_block_size : ℕ
default_block_size = 4096

abbrev pub default_bits_per_key : ℕ
default_bits_per_key = 10

-- `file` is what was written to the file; `bytes_written` wraps around as a `u32`.
pub record SstableBuilder : Type 0 where
  pub file : Bytes
  pub current_block : Block
  pub index_entries : List (ℕ × Bytes)
  pub all_keys : List Bytes
  pub block_size : ℕ
  pub bytes_written : ℕ

unfoldable pub new : ℕ → SstableBuilder
new block_size = record {
  file = [];
  current_block = Block.new;
  index_entries = [];
  all_keys = [];
  block_size = block_size;
  bytes_written = 0;
}

abbrev pub add_u32 : ℕ → ℕ → ℕ
add_u32 a n = as_u32 (a + as_u32 n)

unfoldable pub flush_block : SstableBuilder → Result SstableBuilder
unfolding last_key Block.encode
flush_block b = do
  key ← last_key b.current_block
  let encoded = Block.encode b.current_block
  ok (record b {
    file = b.file ++ encoded;
    index_entries = b.index_entries ++ ((b.bytes_written, key) ∷ []);
    bytes_written = add_u32 b.bytes_written (length encoded);
    current_block = Block.new;
  })

-- `add`, once there is room in the block
abbrev pub add_entry : Bytes → Bytes → SstableBuilder → SstableBuilder
add_entry key value b = record b {
  all_keys = b.all_keys ++ (key ∷ []);
  current_block = Block.add key value b.current_block;
}

unfoldable pub add : Bytes → Bytes → SstableBuilder → Result SstableBuilder
unfolding flush_block Block.add
add key value b =
    let size = estimated_size b.current_block in
    let flushed = flush_block b in
    if ltb 0 size && ltb b.block_size (size + length key + length value + 8)
    then (do b' ← flushed; ok (add_entry key value b'))
    else ok (add_entry key value b)

-- What `write_index_block` writes for the entries.
unfoldable pub encode_index : List (ℕ × Bytes) → Bytes
encode_index [] = []
encode_index ((offset, key) ∷ entries) = to_le_bytes 4 offset ++ (sized key ++ encode_index entries)

unfoldable pub write_index_block : SstableBuilder → SstableBuilder
unfolding encode_index
write_index_block b =
    let index = to_le_bytes 4 (as_u32 (length b.index_entries)) ++ encode_index b.index_entries in
    record b { file = b.file ++ index; bytes_written = add_u32 b.bytes_written (length index) }

-- `finish`: the bytes of the whole file
unfoldable pub finish : (ℕ → ℕ) → SstableBuilder → Result Bytes
unfolding flush_block write_index_block Bloom.build Bloom.encode
finish ln2_rounded b =
    let flushed = flush_block b in
    do
      b1 ← if not (is_empty b.current_block.entries) then flushed else ok b
      let b2 = write_index_block b1
      bloom ← Bloom.build ln2_rounded b2.all_keys default_bits_per_key
      ok (
          b2.file
          ++ (Bloom.encode bloom
              ++ (to_le_bytes 4 b1.bytes_written ++ to_le_bytes 4 b2.bytes_written)))
