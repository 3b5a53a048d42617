-- ===== src/Tests/Memory.antt =====
-- Runs of the code of src/cache/ and src/memtable/.
use rust_kvdb.Prelude.{ℕ, zero, suc, get_elem?, ◌≤◌, [], ◌∷◌, none, some, ◌≡◌, refl, arith}
use rust_kvdb.KvError.{ok}
use rust_kvdb.Sstable.Block.{Block}
use rust_kvdb.Cache
use rust_kvdb.Cache.{CacheKey, BlockCache, key_eq, put}
use rust_kvdb.Cache.Valid.{IsValid, new-IsValid}
use rust_kvdb.Cache.Put.{Put, put_lem}
use rust_kvdb.SortedMap.{lookup}
use rust_kvdb.Memtable.SkipList
use rust_kvdb.Memtable.SkipList.{SkipList, random_level}
use rust_kvdb.Memtable.SkipList.Cells.{Cell, lanes}
use rust_kvdb.Memtable.SkipList.Valid
use rust_kvdb.Memtable.SkipList.Valid.{contents, sentinel}
use rust_kvdb.Memtable.SkipList.Get.{get-lookup}
use rust_kvdb.Memtable.SkipList.Level.{random_level-eq-zero}
use rust_kvdb.Memtable.Node.{store}

program : Unit {0}
unfolding key_eq put
program = tt

abbrev block : Block
block = record { entries = (b'a' ∷ [], 1 ∷ []) ∷ []; encoded_size = 12 }

abbrev key : CacheKey
key = record { sst_id = 1; block_idx = 0 }

abbrev cache : BlockCache
cache = record { map = (key, (block, 12)) ∷ []; order = key ∷ []; capacity = 20; current_size = 12 }

cache-new : put key block (Cache.new 20) ≡ ok cache
unfolding program
cache-new = refl

cache-IsValid : IsValid cache
unfolding program
cache-IsValid =
    let (c', e, p) = put_lem key block (Cache.new 20) (new-IsValid 20) in
    let same : cache ≡ c' = cc e in rw same p.valid

put_lem_example :
    (c' : BlockCache) × (put (record key { block_idx = 1 }) block cache ≡ ok c')
    × Put (record key { block_idx = 1 }) block cache c'
put_lem_example = put_lem (record key { block_idx = 1 }) block cache cache-IsValid

abbrev pub cell : Cell
cell = record { addr = 1; key = b'k' ∷ []; value = 7 ∷ []; height = 0 }

-- The list after one insertion.
abbrev pub skip_list : SkipList
skip_list = record {
  heap =
      store
        (store (λ a. none) 0 (some (record { key = []; value = []; next = some 1 ∷ none ∷ [] }))) 1
        (some (record { key = b'k' ∷ []; value = 7 ∷ []; next = none ∷ [] }));
  fresh = 2;
  head = 0;
  max_level = 2;
  size = 0;
}

lanes_0 : (i : ℕ) → i ≤ 1 → get_elem? (some 1 ∷ none ∷ []) i ≡ some (lanes (cell ∷ []) i)
lanes_0 zero h = refl
lanes_0 (suc zero) h = refl
lanes_0 (suc (suc i)) h = absurd (omega arith)

lanes_1 : (i : ℕ) → i ≤ 0 → get_elem? (none ∷ []) i ≡ some (lanes [] i)
lanes_1 zero h = refl
lanes_1 (suc i) h = absurd (omega arith)

pub skip_list-IsValid : Valid.IsValid skip_list (cell ∷ [])
skip_list-IsValid = record {
  positive = omega arith;
  linked = (
    record {
      node = record { key = []; value = []; next = some 1 ∷ none ∷ [] };
      at = refl;
      key = refl;
      value = refl;
      tall = refl;
      next = lanes_0;
    },
    (
      record {
        node = record { key = b'k' ∷ []; value = 7 ∷ []; next = none ∷ [] };
        at = refl;
        key = refl;
        value = refl;
        tall = refl;
        next = lanes_1;
      },
      tt,
    ),
  );
  sorted = (tt, tt);
  heights = (omega arith, tt);
  distinct = ((λ e. omega (arith, e), tt), (tt, tt));
  old = (omega arith, (omega arith, tt));
  counted = omega arith;
}

get-lookup_example :
    SkipList.get (b'k' ∷ []) skip_list ≡ some (lookup (b'k' ∷ []) (contents (cell ∷ [])))
get-lookup_example = get-lookup skip_list (cell ∷ []) (b'k' ∷ []) skip_list-IsValid

random_level-eq-zero_example : random_level 8 16 ≡ 0
random_level-eq-zero_example = random_level-eq-zero 8 16
