-- ===== src/Tests/Tables.antt =====
-- Runs of the code of src/manifest.rs and src/sstable/block.rs.
use rust_kvdb.Prelude.{
  ◌+◌, ◌-◌, ◌≤◌, ◌==◌, [], ◌∷◌, ◌++◌, length, take, map, All, true, ◌≡◌, ◌≢◌, refl, arith,
  if◌then◌else◌,
}
use rust_kvdb.Bytes.{Bytes}
use rust_kvdb.Bytes.Cursor.{sized}
use rust_kvdb.Bytes.Le.{to_le_bytes}
use rust_kvdb.Bytes.Order.{compare_bytes}
use rust_kvdb.KvError.{KvError, ok, err, panic}
use rust_kvdb.Manifest
use rust_kvdb.Manifest.{SstMeta, Manifest, empty, add_sst, remove_sst, ssts_at_level}
use rust_kvdb.Manifest.Levels.{ssts_at_level-add_sst, Removal, remove_sst_lem}
use rust_kvdb.Manifest.RoundTrip.{unlevelled, IsLevel, decode-encode_manifest}
use rust_kvdb.Manifest.Torn.{decode-ne-panic, decode_torn}
use rust_kvdb.Sstable.Block
use rust_kvdb.Sstable.Block.{Block, add, new, estimated_size}
use rust_kvdb.Sstable.Block.RoundTrip.{IsEntry, decode-encode_block}
use rust_kvdb.Sstable.Block.Size.{add_all, raw_size, estimated_size-add_all}

program : Unit {0}
unfolding Manifest.encode Manifest.decode Block.encode Block.decode add to_le_bytes add_sst
    remove_sst ssts_at_level compare_bytes sized
program = tt

abbrev table : SstMeta
table = record { id = 3; level = 1; min_key = b'a' ∷ []; max_key = b'k' ∷ [] }

abbrev manifest : Manifest
manifest = record { levels = [] ∷ (table ∷ []) ∷ [] }

add_sst-empty : add_sst 1 table empty ≡ manifest
unfolding program
add_sst-empty = refl

remove_sst-manifest : remove_sst 3 manifest ≡ (record { levels = [] ∷ [] ∷ [] }, true)
unfolding program
remove_sst-manifest = refl

manifest-IsLevel : All IsLevel manifest.levels
manifest-IsLevel = (
  record { count = omega arith; entries = tt },
  (
    record {
      count = omega arith;
      entries =
          (record { id_fits = omega arith; min_fits = omega arith; max_fits = omega arith }, tt);
    },
    tt,
  ),
)

decode-encode_manifest_example :
    Manifest.decode (Manifest.encode manifest)
    ≡ ok (record { levels = map (map unlevelled) manifest.levels })
decode-encode_manifest_example = decode-encode_manifest manifest (omega arith) manifest-IsLevel

decode_torn_example : (e : KvError) × (Manifest.decode (take 20 (Manifest.encode manifest)) ≡ err e)
unfolding program
decode_torn_example =
    decode_torn manifest (omega arith) manifest-IsLevel (take 20 (Manifest.encode manifest)) 3
      (0 ∷ 0 ∷ 0 ∷ 0 ∷ 0 ∷ 0 ∷ 0 ∷ 1 ∷ 0 ∷ 0 ∷ 0 ∷ b'a' ∷ 1 ∷ 0 ∷ 0 ∷ 0 ∷ b'k' ∷ []) refl

decode-ne-panic_example : Manifest.decode (b'K' ∷ []) ≢ panic
decode-ne-panic_example = decode-ne-panic (b'K' ∷ [])

ssts_at_level-add_sst_example :
    ssts_at_level (add_sst 1 table manifest) 1
    ≡ (if 1 == 1 then ssts_at_level manifest 1 ++ (table ∷ []) else ssts_at_level manifest 1)
ssts_at_level-add_sst_example = ssts_at_level-add_sst 1 table manifest 1

remove_sst_lem_example : Removal 3 manifest
remove_sst_lem_example = remove_sst_lem 3 manifest

abbrev key1 : Bytes
key1 = b'a' ∷ b'b' ∷ []

abbrev key2 : Bytes
key2 = b'a' ∷ b'c' ∷ b'c' ∷ []

abbrev block : Block
block = add key2 (5 ∷ []) (add key1 (4 ∷ []) new)

block-IsEntry : All IsEntry block.entries
unfolding program
block-IsEntry = (
  record { key_fits = omega arith; value_fits = omega arith },
  (record { key_fits = omega arith; value_fits = omega arith }, tt),
)

decode-encode_block_example :
    Block.decode (Block.encode block)
    ≡ ok (record block { encoded_size = length (Block.encode block) - 4 })
unfolding add
decode-encode_block_example = decode-encode_block block (omega arith) block-IsEntry

estimated_size-add_all_example :
    ((add_all ((key1, 4 ∷ []) ∷ (key2, 5 ∷ []) ∷ []) new).entries
      ≡ (key1, 4 ∷ []) ∷ (key2, 5 ∷ []) ∷ [])
    × (estimated_size (add_all ((key1, 4 ∷ []) ∷ (key2, 5 ∷ []) ∷ []) new)
        ≡ raw_size ((key1, 4 ∷ []) ∷ (key2, 5 ∷ []) ∷ []))
    × (length (Block.encode (add_all ((key1, 4 ∷ []) ∷ (key2, 5 ∷ []) ∷ []) new))
        ≤ 4 + raw_size ((key1, 4 ∷ []) ∷ (key2, 5 ∷ []) ∷ []))
estimated_size-add_all_example = estimated_size-add_all ((key1, 4 ∷ []) ∷ (key2, 5 ∷ []) ∷ [])
