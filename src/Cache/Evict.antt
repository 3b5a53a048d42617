-- ===== src/Cache/Evict.antt =====
-- The loop of `put` that makes room.
use rust_kvdb.Prelude.{
  ℕ, zero, suc, ◌+◌, ◌≤◌, ◌<◌, ltb, if◌then◌else◌, not, Bool, true, false, ◌&&◌, none, some, List,
  [], ◌∷◌, ◌++◌, length, is_empty, ◌≡◌, ◌≢◌, ◌⊎◌, refl, sym, ◌∙◌, arith, Bool-cases, Option-cases,
  inl, inr, ap, append-nil, append_assoc,
}
use rust_kvdb.KvError.{ok}
use rust_kvdb.Cache.{
  CacheKey, key_eq, Slot, BlockCache, lookup, pop_back, drop_slot, evict_last, must_evict, evict,
}
use rust_kvdb.Cache.Assoc.{
  key_eq_self, count, lookup-remove_ne, count_map_of_none, count-pop_back, length-pop_back,
  pop_back-ne-none, append-pop_back, count-append,
}
use rust_kvdb.Cache.Valid.{IsValid, without, without-IsValid, checked_sub-slot}

-- What an eviction leaves: a front part of the order, and each remaining slot as it was.
pub record Evicted (c c' : BlockCache) : Type 0 where
  pub capacity : c'.capacity ≡ c.capacity
  pub gone : List CacheKey
  pub front : c'.order ++ gone ≡ c.order
  pub slots : (k : CacheKey) → 0 < count k c'.order → lookup k c'.map ≡ lookup k c.map

Evicted-refl : (c : BlockCache) → Evicted c c
Evicted-refl c = record {
  capacity = refl;
  gone = [];
  front = append-nil c.order;
  slots = λ k h. refl;
}

Evicted-trans : (a b c : BlockCache) → Evicted a b → Evicted b c → Evicted a c
Evicted-trans a b c p q = record {
  capacity = q.capacity ∙ p.capacity;
  gone = q.gone ++ p.gone;
  front =
      sym (append_assoc c.order q.gone p.gone)
      ∙ ap (λ (t : List CacheKey). t ++ p.gone) q.front
      ∙ p.front;
  slots = λ k h. q.slots k h ∙ p.slots k (kept k h);
}
  where
    kept : (k : CacheKey) → 0 < count k c.order → 0 < count k b.order
    kept k h = rw (← q.front) (omega (arith, count-append k c.order q.gone))

module _ (c : BlockCache) (v : IsValid c) where
  -- Taking the last key off the order takes exactly its slot out of the map.
  evict_last_lem :
      (p : List CacheKey × CacheKey)
      → pop_back c.order ≡ some p
      → (s : Slot) × (evict_last c ≡ ok (without p.1 s p.0 c))
        × IsValid (without p.1 s p.0 c)
        × Evicted c (without p.1 s p.0 c)
  unfolding evict_last drop_slot
  evict_last_lem p e = elim (Option-cases (lookup p.1 c.map)) [
    | inl miss ↦ absurd (
        omega (
          arith,
          count_map_of_none p.1 c.map miss,
          v.listed p.1,
          counts p.1,
          ap one (key_eq_self p.1),
        ))
    | inr (s, hit) ↦ (
      s,
      ground (arith, e, hit, checked_sub-slot p.1 s c v hit),
      without-IsValid p.1 s p.0 c v hit (λ k. ground (arith, counts k, v.distinct k)),
      record {
        capacity = refl;
        gone = p.1 ∷ [];
        front = append-pop_back c.order p e;
        slots = λ k h. lookup-remove_ne p.1 k c.map (ground (arith, counts k, v.distinct k, h));
      },
    )
  ]
    where
      one : Bool → ℕ
      one b = if b then 1 else 0

      counts : (k : CacheKey) → count k c.order ≡ count k p.0 + one (key_eq p.1 k)
      counts k = count-pop_back k c.order p e

-- There is room for the block, or the cache is empty.
abbrev pub HasRoom : ℕ → BlockCache → Type 0
HasRoom block_size c = (c.current_size + block_size ≤ c.capacity) ⊎ (c.order ≡ [])

room_of_test :
    (size cap : ℕ) (o : List CacheKey)
    → ltb cap size && not (is_empty o) ≡ false
    → (size ≤ cap) ⊎ (o ≡ [])
room_of_test size cap [] h = inr refl
room_of_test size cap (k ∷ o) h = inl (ground arith)

HasRoom-must_evict :
    (block_size : ℕ) (c : BlockCache) → must_evict block_size c ≡ false → HasRoom block_size c
HasRoom-must_evict block_size c h = room_of_test (c.current_size + block_size) c.capacity c.order h

-- Where the loop goes on, there is a key to evict.
pos_of_test : (b : Bool) (o : List CacheKey) → b && not (is_empty o) ≡ true → 0 < length o
pos_of_test b [] h = ground arith
pos_of_test b (k ∷ o) h = omega arith

none_of_pop_back : (o : List CacheKey) → 0 < length o → pop_back o ≢ none
none_of_pop_back [] h = absurd (omega arith)
none_of_pop_back (k ∷ o) h = pop_back-ne-none k o

-- The loop ends by its own test within the fuel, without a failed subtraction; it keeps the
-- invariant and drops keys from the back of the order only.
pub evict_lem :
    (fuel block_size : ℕ) (c : BlockCache)
    → IsValid c
    → length c.order ≤ fuel
    → (c' : BlockCache) × (evict fuel block_size c ≡ ok c')
      × IsValid c'
      × HasRoom block_size c'
      × Evicted c c'
unfolding evict
evict_lem zero block_size c v h = elim (Bool-cases (must_evict block_size c)) [
  | inl full ↦ absurd (omega (arith, pos_of_test _ c.order full))
  | inr room ↦ (c, rw room refl, v, HasRoom-must_evict block_size c room, Evicted-refl c)
]
evict_lem (suc fuel) block_size c v h = elim (Bool-cases (must_evict block_size c)) [
  | inl full ↦ elim (Option-cases (pop_back c.order)) [
    | inl empty ↦ absurd (none_of_pop_back c.order (pos_of_test _ c.order full) empty)
    | inr (p, e) ↦
        let (s, step, v1, ev1) = evict_last_lem c v p e in
        let (c', rest, v2, room, ev2) =
          evict_lem fuel block_size (without p.1 s p.0 c) v1
            (omega (arith, length-pop_back c.order p e)) in
        (c', rw (full, step, rest) refl, v2, room, Evicted-trans c (without p.1 s p.0 c) c' ev1 ev2)
  ]
  | inr room ↦ (c, rw room refl, v, HasRoom-must_evict block_size c room, Evicted-refl c)
]
