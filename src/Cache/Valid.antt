-- ===== src/Cache/Valid.antt =====
-- The invariant of the cache: it is kept, no subtraction goes below zero, and the size is bounded.
use rust_kvdb.Prelude.{
  ℕ, ◌-◌, ◌≤◌, if◌then◌else◌, some, List, ◌≡◌, refl, arith, Option-cases, inl, inr,
}
use rust_kvdb.KvError.{ok}
use rust_kvdb.Cache.{CacheKey, key_eq, Slot, BlockCache, new, lookup, remove, checked_sub, get}
use rust_kvdb.Cache.Assoc.{
  eq_of_key_eq, count, count_map, total, count-retain_ne, count_map-remove, count_map_of_some,
  total-remove,
}

-- The order lists the keys of the map, each once, and the size is that of the map's slots.
pub record IsValid (c : BlockCache) : Type 0 where
  pub listed : (k : CacheKey) → count_map k c.map ≡ count k c.order
  pub distinct : (k : CacheKey) → count k c.order ≤ 1
  pub accounted : c.current_size ≡ total c.map

pub new-IsValid : (capacity : ℕ) → IsValid (new capacity)
unfolding count count_map total
new-IsValid capacity = record { listed = λ k. refl; distinct = λ k. omega arith; accounted = refl }

-- A lookup keeps the invariant: on a hit it only moves the key to the front.
pub get-IsValid : (key : CacheKey) (c : BlockCache) → IsValid c → IsValid (get key c).0
unfolding get
get-IsValid key c v = elim (Option-cases (lookup key c.map)) [
  | inl miss ↦ rw (miss, get) v
  | inr (s, hit) ↦
      let one = count_map_of_some key c.map s hit in
      rw (hit, get)
        (record {
          listed = λ k.
              unfold count in
              ground (
                arith,
                v.listed k,
                v.distinct k,
                count-retain_ne key k c.order,
                eq_of_key_eq key k,
                one,
                v.listed key,
                v.distinct key,
              );
          distinct =
              λ k. unfold count in ground (arith, v.distinct k, count-retain_ne key k c.order);
          accounted = v.accounted;
        })
]

-- A cache with one key and its slot taken out of the map.
abbrev pub without : CacheKey → Slot → List CacheKey → BlockCache → BlockCache
without key s order c = record c {
  map = remove key c.map;
  order = order;
  current_size = c.current_size - s.1;
}

pub without-IsValid :
    (key : CacheKey) (s : Slot) (order : List CacheKey) (c : BlockCache)
    → IsValid c
    → lookup key c.map ≡ some s
    → ((k : CacheKey) → count k order ≡ (if key_eq key k then 0 else count k c.order))
    → IsValid (without key s order c)
without-IsValid key s order c v hit counts = record {
  listed = λ k.
      ground (
        arith,
        counts k,
        count_map-remove key k c.map,
        v.listed k,
        v.distinct k,
        eq_of_key_eq key k,
      );
  distinct = λ k. ground (arith, counts k, v.distinct k);
  accounted = omega (arith, v.accounted, total-remove key c.map s hit);
}

-- The subtraction for a slot of the map succeeds.
pub checked_sub-slot :
    (key : CacheKey) (s : Slot) (c : BlockCache)
    → IsValid c
    → lookup key c.map ≡ some s
    → checked_sub c.current_size s.1 ≡ ok (c.current_size - s.1)
checked_sub-slot key s c v hit = ground (arith, v.accounted, total-remove key c.map s hit)
