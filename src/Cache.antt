-- ===== src/Cache.antt =====
-- src/cache/block_cache.rs: the least-recently-used cache of decoded blocks.
pub mod Valid
pub mod Evict
pub mod Put
pub mod Assoc
use rust_kvdb.Prelude.{
  ℕ, zero, suc, ◌+◌, ◌-◌, ◌==◌, ltb, if◌then◌else◌, not, Bool, true, false, ◌&&◌, Option, none,
  some, List, [], ◌∷◌, ◌++◌, length, is_empty,
}
use rust_kvdb.KvError.{Result, ok, err, panic, ◌>>=◌}
use rust_kvdb.Sstable.Block.{Block, estimated_size}

pub record CacheKey : Type 0 where
  pub sst_id : ℕ
  pub block_idx : ℕ

unfoldable pub key_eq : CacheKey → CacheKey → Bool
key_eq a b = (a.sst_id == b.sst_id) && (a.block_idx == b.block_idx)

abbrev pub Slot : Type 0
Slot = Block × ℕ

-- `map` is the `HashMap`, and `order` the `VecDeque`, its front first.
pub record BlockCache : Type 0 where
  pub map : List (CacheKey × Slot)
  pub order : List CacheKey
  pub capacity : ℕ
  pub current_size : ℕ

abbrev pub new : ℕ → BlockCache
new capacity = record { map = []; order = []; capacity = capacity; current_size = 0 }

-- `HashMap::get`, `HashMap::remove` and `HashMap::insert`
unfoldable pub lookup : CacheKey → List (CacheKey × Slot) → Option Slot
lookup k [] = none
lookup k ((j, s) ∷ m) = if key_eq j k then some s else lookup k m

unfoldable pub remove : CacheKey → List (CacheKey × Slot) → List (CacheKey × Slot)
remove k [] = []
remove k ((j, s) ∷ m) = if key_eq j k then m else (j, s) ∷ remove k m

abbrev pub insert : CacheKey → Slot → List (CacheKey × Slot) → List (CacheKey × Slot)
insert k s m = (k, s) ∷ remove k m

-- `order.retain(|k| k != key)`
unfoldable pub retain_ne : CacheKey → List CacheKey → List CacheKey
retain_ne k [] = []
retain_ne k (j ∷ o) = let rest = retain_ne k o in if key_eq j k then rest else j ∷ rest

-- `order.pop_back()`
unfoldable pub pop_back : List CacheKey → Option (List CacheKey × CacheKey)
pop_back [] = none
pop_back (k ∷ []) = some ([], k)
pop_back (k ∷ j ∷ o) = elim (pop_back (j ∷ o)) [ none ↦ none | some p ↦ some (k ∷ p.0, p.1) ]

-- `a - b` on `usize`; a result below 0 is a panic.
abbrev pub checked_sub : ℕ → ℕ → Result ℕ
checked_sub a b = if ltb a b then panic else ok (a - b)

unfoldable pub get : CacheKey → BlockCache → BlockCache × Option Block
unfolding lookup retain_ne
get key c = elim (lookup key c.map) [
  | none ↦ (c, none)
  | some s ↦ (record c { order = key ∷ retain_ne key c.order }, some s.0)
]

-- `if let Some((_, size)) = map.remove(&key) { current_size -= size }`
unfoldable pub drop_slot : CacheKey → BlockCache → Result BlockCache
unfolding lookup remove
drop_slot key c = elim (lookup key c.map) [
  | none ↦ ok c
  | some s ↦ do
    size ← checked_sub c.current_size s.1
    ok (record c { map = remove key c.map; current_size = size })
]

-- One round of the loop that makes room: the last key of the order and its slot go.
unfoldable pub evict_last : BlockCache → Result BlockCache
unfolding pop_back drop_slot
evict_last c = elim (pop_back c.order) [
  | none ↦ ok c
  | some p ↦ drop_slot p.1 (record c { order = p.0 })
]

-- `current_size + block_size > capacity && !order.is_empty()`
abbrev pub must_evict : ℕ → BlockCache → Bool
must_evict block_size c = ltb c.capacity (c.current_size + block_size) && not (is_empty c.order)

-- The loop. Each round takes a key off the order, so its length is enough fuel; `panic` also
-- stands for fuel that ran out.
unfoldable pub evict : ℕ → ℕ → BlockCache → Result BlockCache
unfolding evict_last
evict zero block_size c = if must_evict block_size c then panic else ok c
evict (suc fuel) block_size c =
    let more = (do c' ← evict_last c; evict fuel block_size c') in
    if must_evict block_size c then more else ok c

-- `if let Some((_, old_size)) = map.remove(&key) { .. }`
unfoldable pub remove_old : CacheKey → BlockCache → Result BlockCache
unfolding lookup remove retain_ne
remove_old key c = elim (lookup key c.map) [
  | none ↦ ok c
  | some s ↦ do
    size ← checked_sub c.current_size s.1
    ok (record c { map = remove key c.map; order = retain_ne key c.order; current_size = size })
]

-- The new entry, once there is room.
unfoldable pub push : CacheKey → Block → BlockCache → BlockCache
unfolding remove
push key block c = record c {
  map = insert key (block, estimated_size block) c.map;
  order = key ∷ c.order;
  current_size = c.current_size + estimated_size block;
}

unfoldable pub put : CacheKey → Block → BlockCache → Result BlockCache
unfolding remove_old evict push
put key block c = do
  c1 ← remove_old key c
  c2 ← evict (length c1.order) (estimated_size block) c1
  ok (push key block c2)
