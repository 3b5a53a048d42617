-- ===== src/SortedMap/Laws.antt =====
-- The laws of the ordered map.
use rust_kvdb.Prelude.{if◌then◌else◌, some, [], ◌∷◌, Ordering, All, ◌≡◌, refl, arith, inl, inr}
use rust_kvdb.Bytes.{Bytes}
use rust_kvdb.Bytes.Order.{
  compare_bytes, bytes_eq, compare_bytes_self, eq_of_compare_bytes, compare_bytes-flip,
  compare_bytes_trans, compare_bytes_cases,
}
use rust_kvdb.SortedMap.{Entries, lookup, insert, IsSorted}

-- A lookup after an insertion, at every key.
pub lookup-insert :
    (k j v : Bytes) (m : Entries)
    → lookup j (insert k v m) ≡ (if bytes_eq k j then some v else lookup j m)
unfolding lookup insert
lookup-insert k j v [] = refl
lookup-insert k j v ((i, w) ∷ m) = ground (
  arith,
  lookup-insert k j v m,
  eq_of_compare_bytes i k,
  eq_of_compare_bytes i j,
  eq_of_compare_bytes k j,
  compare_bytes_self j,
  compare_bytes_self i,
)

lower-insert :
    (i k v : Bytes) (m : Entries)
    → compare_bytes i k ≡ Ordering.lt
    → All (λ f. compare_bytes i f.0 ≡ Ordering.lt) m
    → All (λ f. compare_bytes i f.0 ≡ Ordering.lt) (insert k v m)
unfolding insert
lower-insert i k v [] lt h = (lt, tt)
lower-insert i k v ((j, w) ∷ m) lt (x, h) = elim (compare_bytes_cases j k) [
  | inl e ↦ rw (e, insert) (x, lower-insert i k v m lt h)
  | inr (inl e) ↦ rw (e, insert) (x, h)
  | inr (inr e) ↦ rw (e, insert) (lt, (x, h))
]

lower_trans :
    (k j : Bytes) (m : Entries)
    → compare_bytes k j ≡ Ordering.lt
    → All (λ f. compare_bytes j f.0 ≡ Ordering.lt) m
    → All (λ f. compare_bytes k f.0 ≡ Ordering.lt) m
lower_trans k j [] lt h = tt
lower_trans k j (f ∷ m) lt (x, h) = (compare_bytes_trans k j f.0 lt x, lower_trans k j m lt h)

-- An insertion keeps the order.
pub insert-IsSorted : (k v : Bytes) (m : Entries) → IsSorted m → IsSorted (insert k v m)
unfolding insert
insert-IsSorted k v [] s = (tt, tt)
insert-IsSorted k v ((j, w) ∷ m) (first, s) = elim (compare_bytes_cases j k) [
  | inl e ↦ rw (e, insert) (lower-insert j k v m e first, insert-IsSorted k v m s)
  | inr (inl e) ↦ rw (e, insert) (first, s)
  | inr (inr e) ↦
      let below = compare_bytes-flip j k e in
      rw (e, insert) ((below, lower_trans k j m below first), (first, s))
]
