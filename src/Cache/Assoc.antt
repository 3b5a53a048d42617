-- ===== src/Cache/Assoc.antt =====
-- Counting keys in the map and in the order.
use rust_kvdb.Prelude.{
  ℕ, suc, ◌+◌, ◌-◌, ◌<◌, if◌then◌else◌, true, false, none, some, List, [], ◌∷◌, ◌++◌, length, ◌≡◌,
  ◌≢◌, refl, arith, Option-cases, inl, inr, ap,
}
use rust_kvdb.Cache.{CacheKey, key_eq, Slot, lookup, remove, retain_ne, pop_back}

pub eq_of_key_eq : (a b : CacheKey) → key_eq a b ≡ true → a ≡ b
unfolding key_eq
eq_of_key_eq a b h = ground arith

pub key_eq_self : (a : CacheKey) → key_eq a a ≡ true
unfolding key_eq
key_eq_self a = ground arith

unfoldable pub count : CacheKey → List CacheKey → ℕ
count k [] = 0
count k (j ∷ o) = if key_eq j k then suc (count k o) else count k o

unfoldable pub count_map : CacheKey → List (CacheKey × Slot) → ℕ
count_map k [] = 0
count_map k ((j, s) ∷ m) = if key_eq j k then suc (count_map k m) else count_map k m

-- The bytes that the map accounts for.
unfoldable pub total : List (CacheKey × Slot) → ℕ
total [] = 0
total ((j, s) ∷ m) = s.1 + total m

pub count-retain_ne :
    (k j : CacheKey) (o : List CacheKey)
    → count j (retain_ne k o) ≡ (if key_eq k j then 0 else count j o)
unfolding count retain_ne
count-retain_ne k j [] = ground arith
count-retain_ne k j (i ∷ o) =
    ground (
      arith,
      count-retain_ne k j o,
      eq_of_key_eq i k,
      eq_of_key_eq k j,
      key_eq_self j,
      key_eq_self k,
    )

pub count_map-remove :
    (k j : CacheKey) (m : List (CacheKey × Slot))
    → count_map j (remove k m) ≡ (if key_eq k j then count_map j m - 1 else count_map j m)
unfolding count_map remove
count_map-remove k j [] = ground arith
count_map-remove k j ((i, s) ∷ m) = ground (
  arith,
  count_map-remove k j m,
  eq_of_key_eq i k,
  eq_of_key_eq k j,
  key_eq_self j,
  key_eq_self k,
)

pub lookup-remove_ne :
    (k j : CacheKey) (m : List (CacheKey × Slot))
    → key_eq k j ≡ false
    → lookup j (remove k m) ≡ lookup j m
unfolding lookup remove
lookup-remove_ne k j [] h = refl
lookup-remove_ne k j ((i, s) ∷ m) h = ground (
  arith,
  lookup-remove_ne k j m,
  eq_of_key_eq i k,
  eq_of_key_eq k j,
  key_eq_self j,
  key_eq_self k,
)

pub lookup-eq-none :
    (k : CacheKey) (m : List (CacheKey × Slot)) → count_map k m ≡ 0 → lookup k m ≡ none
unfolding lookup count_map
lookup-eq-none k [] h = refl
lookup-eq-none k ((i, s) ∷ m) h = ground (arith, lookup-eq-none k m)

pub count_map_of_none :
    (k : CacheKey) (m : List (CacheKey × Slot)) → lookup k m ≡ none → count_map k m ≡ 0
unfolding lookup count_map
count_map_of_none k [] h = refl
count_map_of_none k ((i, s) ∷ m) h = ground (arith, count_map_of_none k m)

pub count_map_of_some :
    (k : CacheKey) (m : List (CacheKey × Slot)) (s : Slot) → lookup k m ≡ some s → 0 < count_map k m
unfolding lookup count_map
count_map_of_some k [] s h = cc
count_map_of_some k ((i, t) ∷ m) s h = ground (arith, count_map_of_some k m s)

pub total-remove :
    (k : CacheKey) (m : List (CacheKey × Slot)) (s : Slot)
    → lookup k m ≡ some s
    → total (remove k m) + s.1 ≡ total m
unfolding lookup remove total
total-remove k [] s h = cc
total-remove k ((i, t) ∷ m) s h = ground (arith, total-remove k m s)

pub count-pop_back :
    (j : CacheKey) (o : List CacheKey) (p : List CacheKey × CacheKey)
    → pop_back o ≡ some p
    → count j o ≡ count j p.0 + (if key_eq p.1 j then 1 else 0)
unfolding count pop_back
count-pop_back j [] p h = cc
count-pop_back j (k ∷ []) p h = ground arith
count-pop_back j (k ∷ i ∷ o) p h = elim (Option-cases (pop_back (i ∷ o))) [
  | inl empty ↦ absurd (ground (arith, h))
  | inr (q, e) ↦
      let whole : p ≡ (k ∷ q.0, q.1) = ground arith in
      rw whole (ground (arith, count-pop_back j (i ∷ o) q e))
]

-- A key that was popped leaves a shorter order.
pub length-pop_back :
    (o : List CacheKey) (p : List CacheKey × CacheKey)
    → pop_back o ≡ some p
    → length o ≡ suc (length p.0)
unfolding pop_back
length-pop_back [] p h = cc
length-pop_back (k ∷ []) p h = ground arith
length-pop_back (k ∷ i ∷ o) p h = elim (Option-cases (pop_back (i ∷ o))) [
  | inl empty ↦ absurd (ground (arith, h))
  | inr (q, e) ↦
      let whole : p ≡ (k ∷ q.0, q.1) = ground arith in
      rw whole (omega (arith, length-pop_back (i ∷ o) q e))
]

pub pop_back-ne-none : (k : CacheKey) (o : List CacheKey) → pop_back (k ∷ o) ≢ none
unfolding pop_back
pop_back-ne-none k [] = λ p. cc
pop_back-ne-none k (i ∷ o) = λ p. ground (arith, pop_back-ne-none i o)

pub append-pop_back :
    (o : List CacheKey) (p : List CacheKey × CacheKey) → pop_back o ≡ some p → p.0 ++ (p.1 ∷ []) ≡ o
unfolding pop_back
append-pop_back [] p h = cc
append-pop_back (k ∷ []) p h = ground arith
append-pop_back (k ∷ i ∷ o) p h = elim (Option-cases (pop_back (i ∷ o))) [
  | inl empty ↦ absurd (ground (arith, h))
  | inr (q, e) ↦
      let whole : p ≡ (k ∷ q.0, q.1) = ground arith in
      rw whole (ap (◌∷◌ k) (append-pop_back (i ∷ o) q e))
]

pub count-append : (k : CacheKey) (o q : List CacheKey) → count k (o ++ q) ≡ count k o + count k q
unfolding count
count-append k [] q = omega arith
count-append k (j ∷ o) q = ground (arith, count-append k o q)

pub remove_absent : (k : CacheKey) (m : List (CacheKey × Slot)) → count_map k m ≡ 0 → remove k m ≡ m
unfolding remove count_map
remove_absent k [] h = refl
remove_absent k ((j, s) ∷ m) h = ground (arith, remove_absent k m)

pub total_of_empty :
    (m : List (CacheKey × Slot)) → ((k : CacheKey) → count_map k m ≡ 0) → total m ≡ 0
unfolding total count_map
total_of_empty [] h = refl
total_of_empty ((j, s) ∷ m) h = absurd (ground (arith, h j, key_eq_self j))
