-- ===== src/Cache/Put.antt =====
-- What `put` does to a valid cache.
use rust_kvdb.Prelude.{
  ℕ, ◌≤◌, ltb, if◌then◌else◌, false, none, some, List, [], ◌∷◌, ◌++◌, length, ◌≡◌, ◌⊎◌, refl, sym,
  ◌∙◌, arith, Bool-cases, Option-cases, inl, inr, ap,
}
use rust_kvdb.KvError.{ok}
use rust_kvdb.Sstable.Block.{Block, estimated_size}
use rust_kvdb.Cache.{CacheKey, key_eq, BlockCache, lookup, retain_ne, remove_old, push, put}
use rust_kvdb.Cache.Assoc.{
  eq_of_key_eq, key_eq_self, count, count_map, total, count-retain_ne, count_map-remove,
  lookup-remove_ne, lookup-eq-none, count_map_of_none, count-append, remove_absent, total_of_empty,
}
use rust_kvdb.Cache.Valid.{IsValid, without, without-IsValid, checked_sub-slot}
use rust_kvdb.Cache.Evict.{HasRoom, evict_lem}

module _ (key : CacheKey) where
  -- The key is in neither part afterwards; the other keys keep their order and their slots.
  record Removed (c c' : BlockCache) : Type 0 where
    valid : IsValid c'
    capacity : c'.capacity ≡ c.capacity
    order : c'.order ≡ retain_ne key c.order
    absent : count key c'.order ≡ 0
    slots : (k : CacheKey) → key_eq key k ≡ false → lookup k c'.map ≡ lookup k c.map

  retain_ne-absent : (o : List CacheKey) → count key o ≡ 0 → retain_ne key o ≡ o
  unfolding retain_ne count
  retain_ne-absent [] h = refl
  retain_ne-absent (k ∷ o) h = ground (arith, retain_ne-absent o)

  remove_old_lem :
      (c : BlockCache) → IsValid c → (c' : BlockCache) × (remove_old key c ≡ ok c') × Removed c c'
  unfolding remove_old
  remove_old_lem c v = elim (Option-cases (lookup key c.map)) [
    | inl miss ↦
        let gone : count key c.order ≡ 0 =
          omega (arith, v.listed key, count_map_of_none key c.map miss) in
        (
          c,
          ground (arith, miss),
          record {
            valid = v;
            capacity = refl;
            order = sym (retain_ne-absent c.order gone);
            absent = gone;
            slots = λ k h. refl;
          },
        )
    | inr (s, hit) ↦ (
      without key s (retain_ne key c.order) c,
      ground (arith, hit, checked_sub-slot key s c v hit),
      record {
        valid =
            without-IsValid key s (retain_ne key c.order) c v hit
              (λ k. count-retain_ne key k c.order);
        capacity = refl;
        order = refl;
        absent = ground (arith, count-retain_ne key key c.order, key_eq_self key);
        slots = λ k h. lookup-remove_ne key k c.map h;
      },
    )
  ]

  push-IsValid :
      (block : Block) (c : BlockCache)
      → IsValid c
      → count key c.order ≡ 0
      → IsValid (push key block c)
  unfolding push count count_map total
  push-IsValid block c v absent = record {
    listed =
        λ k. ground (arith, v.listed k, count_map-remove key k c.map, eq_of_key_eq key k, absent);
    distinct = λ k. ground (arith, v.distinct k, eq_of_key_eq key k, absent);
    accounted = omega (
      arith,
      v.accounted,
      v.listed key,
      ap total (remove_absent key c.map (v.listed key ∙ absent)),
    );
  }

-- What a `put` leaves.
pub record Put (key : CacheKey) (block : Block) (c c' : BlockCache) : Type 0 where
  pub valid : IsValid c'
  -- The size is within the capacity, unless the block alone is larger.
  pub bounded : (c'.current_size ≤ c.capacity) ⊎ (c'.current_size ≡ estimated_size block)
  -- The key comes first, then the others in their old order, less some at the back.
  pub kept : List CacheKey
  pub evicted : List CacheKey
  pub order : c'.order ≡ key ∷ kept
  pub front : kept ++ evicted ≡ retain_ne key c.order
  -- The key has the block, the kept keys have their old slots, and no other key has one.
  pub slots :
      (k : CacheKey)
      → lookup k c'.map ≡ (
          if key_eq key k
          then some (block, estimated_size block)
          else if ltb 0 (count k kept)
          then lookup k c.map
          else none)

push_bounded :
    (key : CacheKey) (block : Block) (c : BlockCache) (capacity : ℕ)
    → c.capacity ≡ capacity
    → IsValid c
    → HasRoom (estimated_size block) c
    → ((push key block c).current_size ≤ capacity)
      ⊎ ((push key block c).current_size ≡ estimated_size block)
unfolding push
push_bounded key block c capacity same v (inl fits) = inl (omega arith)
push_bounded key block c capacity same v (inr empty) =
    let nothing : (k : CacheKey) → count_map k c.map ≡ 0 =
      λ k. v.listed k ∙ ap (count k) empty ∙ unfold count in refl in
    inr (omega (arith, v.accounted, total_of_empty c.map nothing))

-- On a valid cache `put` never panics. The cache stays valid, holds the block under its key, and
-- is within its capacity unless the block alone is larger; keys are only dropped from the back
-- of the order, the least recently used first, and the others keep their slots.
pub put_lem :
    (key : CacheKey) (block : Block) (c : BlockCache)
    → IsValid c
    → (c' : BlockCache) × (put key block c ≡ ok c') × Put key block c c'
unfolding put
put_lem key block c v =
    let size = estimated_size block in
    let (c1, removed, r) = remove_old_lem key c v in
    let (c2, evicted, v2, room, e) = evict_lem (length c1.order) size c1 r.valid (omega arith) in
    let absent : count key c2.order ≡ 0 =
      omega (arith, r.absent, ap (count key) e.front, count-append key c2.order e.gone) in
    (
      push key block c2,
      rw (removed, evicted) refl,
      record {
        valid = push-IsValid key block c2 v2 absent;
        bounded = push_bounded key block c2 c.capacity (e.capacity ∙ r.capacity) v2 room;
        kept = c2.order;
        evicted = e.gone;
        order = unfold push in refl;
        front = e.front ∙ r.order;
        slots = λ k. elim (Bool-cases (key_eq key k)) [
          | inl same ↦ unfold push lookup in rw same
          | inr other ↦
              let old : lookup k (push key block c2).map ≡ lookup k c2.map =
                unfold push lookup in rw (other, lookup-remove_ne key k c2.map other) in
              rw old
                (ground (arith, e.slots k, r.slots k other, lookup-eq-none k c2.map, v2.listed k))
        ];
      },
    )
