-- ===== src/Tests/Merging.antt =====
-- A run of the merge iterator, with a heap that does what `BinaryHeap::pop` promises.
use rust_kvdb.Prelude.{
  if◌then◌else◌, Option, none, true, false, some, List, [], ◌∷◌, ◌++◌, All, ◌≡◌, refl, ap, arith,
  Bool-cases, inl, inr,
}
use rust_kvdb.Bytes.Order.{
  compare_bytes, compare_bytes_trans, compare_bytes-flip, compare_bytes-flip_lt,
  eq_of_compare_bytes, compare_bytes_self,
}
use rust_kvdb.Merge.{HeapEntry, SourceIter, entry_lt, new, collect}
use rust_kvdb.Merge.Shuffle.{Shuffled, Shuffled-middle}
use rust_kvdb.Merge.Ascending.{IsHeapPop, IsAscending}
use rust_kvdb.Merge.Complete.{all_of}
use rust_kvdb.Merge.Merged.{collect_new_lem}

-- A least entry, and the others.
unfoldable pop : List HeapEntry → Option (HeapEntry × List HeapEntry)
unfolding entry_lt
pop [] = none
pop (e ∷ heap) = elim (pop heap) [
  | none ↦ some (e, [])
  | some p ↦ if entry_lt p.0 e then some (p.0, e ∷ p.1) else some (e, heap)
]

-- Two entries cannot be below each other.
entry_lt_asym : (a b : HeapEntry) → entry_lt a b ≡ true → entry_lt b a ≡ false
unfolding entry_lt
entry_lt_asym a b h = ground (
  arith,
  compare_bytes-flip_lt a.key b.key,
  compare_bytes-flip a.key b.key,
  eq_of_compare_bytes a.key b.key,
  compare_bytes_self a.key,
)

entry_lt_below :
    (x e p : HeapEntry) → entry_lt x e ≡ true → entry_lt p e ≡ false → entry_lt x p ≡ true
unfolding entry_lt
entry_lt_below x e p h k = ground (
  arith,
  compare_bytes_trans p.key x.key e.key,
  compare_bytes_trans x.key e.key p.key,
  compare_bytes-flip x.key p.key,
  compare_bytes-flip p.key e.key,
  eq_of_compare_bytes x.key p.key,
  eq_of_compare_bytes x.key e.key,
  eq_of_compare_bytes p.key e.key,
  compare_bytes_self e.key,
  compare_bytes_self x.key,
)

-- No entry of the list is below this one.
abbrev IsLeast : HeapEntry → List HeapEntry → Type 0
IsLeast e = All (λ x. entry_lt x e ≡ false)

IsLeast-below :
    (e p : HeapEntry) (heap : List HeapEntry)
    → entry_lt p e ≡ false
    → IsLeast p heap
    → IsLeast e heap
IsLeast-below e p [] h l = tt
IsLeast-below e p (x ∷ heap) h (lx, l) = elim (Bool-cases (entry_lt x e)) [
  | inl lower ↦ absurd (let q = entry_lt_below x e p lower h in cc)
  | inr higher ↦ (higher, IsLeast-below e p heap h l)
]

IsLeast-insert :
    (x e : HeapEntry) (before behind : List HeapEntry)
    → entry_lt e x ≡ false
    → IsLeast x (before ++ behind)
    → IsLeast x (before ++ (e ∷ behind))
IsLeast-insert x e [] behind h l = (h, l)
IsLeast-insert x e (y ∷ before) behind h (ly, l) = (ly, IsLeast-insert x e before behind h l)

pop_lem :
    (x : HeapEntry) (heap : List HeapEntry)
    → (e : HeapEntry) × (before : List HeapEntry) × (behind : List HeapEntry) × (pop (x ∷ heap)
        ≡ some (e, before ++ behind))
      × (x ∷ heap ≡ before ++ (e ∷ behind))
      × IsLeast e (before ++ behind)
unfolding pop
pop_lem x [] = (x, [], [], refl, refl, tt)
pop_lem x (y ∷ heap) =
    let (e, before, behind, popped, parts, least) = pop_lem y heap in
    elim (Bool-cases (entry_lt e x)) [
      | inl lower ↦ (
        e,
        x ∷ before,
        behind,
        rw (popped, lower) refl,
        ap (◌∷◌ x) parts,
        (entry_lt_asym e x lower, least),
      )
      | inr higher ↦ (
        x,
        [],
        y ∷ heap,
        rw (popped, higher) refl,
        refl,
        (let all =
              IsLeast-insert x e before behind higher
                (IsLeast-below x e (before ++ behind) higher least) in
            rw (← parts) at all),
      )
    ]

pop-IsHeapPop : IsHeapPop pop
unfolding pop
pop-IsHeapPop = record {
  empty = refl;
  takes = λ x heap.
      let (e, before, behind, popped, parts, least) = pop_lem x heap in
      (e, before ++ behind, popped, rw parts (Shuffled-middle e before behind), least);
}

abbrev sources : List SourceIter
sources =
    ((b'k' ∷ [], 1 ∷ []) ∷ (b'm' ∷ [], []) ∷ [])
    ∷ []
    ∷ ((b'a' ∷ [], 3 ∷ []) ∷ (b'k' ∷ [], 2 ∷ []) ∷ [])
    ∷ []

sources-IsAscending : All IsAscending sources
unfolding compare_bytes
sources-IsAscending = (((refl, tt), (tt, tt)), (tt, (((refl, tt), (tt, tt)), tt)))

collect_new_lem_example :
    Shuffled (all_of sources) (collect pop 4 (new sources))
    × IsAscending (collect pop 4 (new sources))
collect_new_lem_example =
    collect_new_lem pop sources 4 pop-IsHeapPop sources-IsAscending (omega arith)

collect-sources :
    collect pop 4 (new sources)
    ≡ (b'a' ∷ [], 3 ∷ []) ∷ (b'k' ∷ [], 1 ∷ []) ∷ (b'k' ∷ [], 2 ∷ []) ∷ (b'm' ∷ [], []) ∷ []
unfolding pop collect new compare_bytes
collect-sources = refl
