-- ===== src/Merge/Ascending.antt =====
-- The merged entries come in the order of their keys.
use rust_kvdb.Prelude.{
  ℕ, zero, suc, false, ◌⊎◌, some, none, List, [], ◌∷◌, set, All, ◌≡◌, refl, inl, inr, arith,
}
use rust_kvdb.Merge.Shuffle.{Shuffled, All-Shuffled}
use rust_kvdb.Bytes.{Bytes}
use rust_kvdb.Bytes.Order.{
  bytes_lt, compare_bytes_trans, compare_bytes-flip, eq_of_compare_bytes, compare_bytes_self,
}
use rust_kvdb.SortedMap.{Entries}
use rust_kvdb.Merge.{
  HeapEntry, SourceIter, Pop, entry_lt, push_next, advance, source_at, next, collect,
}

-- What `BinaryHeap::pop` promises: nothing from an empty heap, else one of the entries, such that
-- none of the others is below it, and the heap of the others.
pub record IsHeapPop (pop : Pop) : Type 0 where
  pub empty : pop [] ≡ none
  pub takes :
      (x : HeapEntry) (heap : List HeapEntry)
      → (e : HeapEntry) × (rest : List HeapEntry) × (pop (x ∷ heap) ≡ some (e, rest))
        × Shuffled (x ∷ heap) (e ∷ rest)
        × All (λ y. entry_lt y e ≡ false) rest

-- A key is not below another.
abbrev pub AtLeast : Bytes → Bytes → Type 0
AtLeast k key = bytes_lt key k ≡ false

-- No key is below one before it.
abbrev pub IsAscending : Entries → Type 0
IsAscending [] = Unit
IsAscending (e ∷ es) = All (λ f. AtLeast e.0 f.0) es × IsAscending es

AtLeast-trans : (a b c : Bytes) → AtLeast a b → AtLeast b c → AtLeast a c
AtLeast-trans a b c h k = ground (
  arith,
  compare_bytes_trans c a b,
  compare_bytes_trans b c a,
  compare_bytes-flip b a,
  compare_bytes-flip c b,
  eq_of_compare_bytes b a,
  eq_of_compare_bytes c b,
  compare_bytes_self a,
  compare_bytes_self b,
)

AtLeast-refl : (a : Bytes) → AtLeast a a
AtLeast-refl a = ground (arith, compare_bytes_self a)

AtLeast-entry_lt : (e y : HeapEntry) → entry_lt y e ≡ false → AtLeast e.key y.key
unfolding entry_lt
AtLeast-entry_lt e y h = ground arith

pub All-mapped {ℓ} :
    {A : Type ℓ} (P Q : A → Type 0) (l : List A) → ((a : A) → P a → Q a) → All P l → All Q l
All-mapped P Q [] f a = tt
All-mapped P Q (x ∷ l) f (p, a) = (f x p, All-mapped P Q l f a)

All-both {ℓ} :
    {A : Type ℓ} (P Q : A → Type 0) (l : List A) → All P l → All Q l → All (λ a. P a × Q a) l
All-both P Q [] p q = tt
All-both P Q (x ∷ l) (p, ps) (q, qs) = ((p, q), All-both P Q l ps qs)

-- The rest of the source of an entry is in order, and behind it.
pub record IsBehind (sources : List SourceIter) (h : HeapEntry) : Type 0 where
  pub above : All (λ f. AtLeast h.key f.0) (source_at sources h.source)
  pub ascending : IsAscending (source_at sources h.source)

-- The rest of a source at a later time: as it was, or without its first entry.
pub source_at-advance :
    (sources : List SourceIter) (i j : ℕ)
    → (source_at (set sources i (advance (source_at sources i))) j ≡ source_at sources j)
      ⊎ (source_at (set sources i (advance (source_at sources i))) j
          ≡ advance (source_at sources j))
source_at-advance [] i j = inl refl
source_at-advance (s ∷ sources) zero zero = inr refl
source_at-advance (s ∷ sources) zero (suc j) = inl refl
source_at-advance (s ∷ sources) (suc i) zero = inl refl
source_at-advance (s ∷ sources) (suc i) (suc j) = source_at-advance sources i j

All-advance : (P : Bytes × Bytes → Type 0) (s : SourceIter) → All P s → All P (advance s)
All-advance P [] a = tt
All-advance P (e ∷ s) (x, a) = a

IsAscending-advance : (s : SourceIter) → IsAscending s → IsAscending (advance s)
IsAscending-advance [] a = tt
IsAscending-advance (e ∷ s) (x, a) = a

pub IsBehind-advance :
    (sources : List SourceIter) (i : ℕ) (h : HeapEntry)
    → IsBehind sources h
    → IsBehind (set sources i (advance (source_at sources i))) h
IsBehind-advance sources i h b = elim (source_at-advance sources i h.source) [
  | inl same ↦ record { above = rw same b.above; ascending = rw same b.ascending }
  | inr less ↦ record {
    above = rw less (All-advance (λ f. AtLeast h.key f.0) (source_at sources h.source) b.above);
    ascending = rw less (IsAscending-advance (source_at sources h.source) b.ascending);
  }
]

-- An entry from which all that comes of it is at least this key.
abbrev pub Follows : List SourceIter → Bytes → HeapEntry → Type 0
Follows sources k h = AtLeast k h.key × IsBehind sources h

source_at-same :
    (sources : List SourceIter) (i : ℕ) (f : Bytes × Bytes) (tail : SourceIter)
    → source_at sources i ≡ f ∷ tail
    → source_at (set sources i (advance (source_at sources i))) i ≡ tail
source_at-same [] i f tail e = absurd (cc e)
source_at-same (s ∷ sources) zero f tail e = rw e refl
source_at-same (s ∷ sources) (suc i) f tail e = source_at-same sources i f tail e

-- The heap behind a step, by the rest of the source of the entry that was taken.
Follows-push_next :
    (sources : List SourceIter) (k : Bytes) (e : HeapEntry) (rest : List HeapEntry)
    (source : SourceIter)
    → source_at sources e.source ≡ source
    → Follows sources k e
    → All (Follows sources k) rest
    → All
        (Follows (set sources e.source (advance (source_at sources e.source))) k)
        (push_next e.source source rest)
Follows-push_next sources k e rest [] same b a =
    All-mapped (Follows sources k)
      (Follows (set sources e.source (advance (source_at sources e.source))) k) rest
      (λ h p. (p.0, IsBehind-advance sources e.source h p.1)) a
Follows-push_next sources k e rest (f ∷ tail) same (low, b) a =
    let above : All (λ g. AtLeast e.key g.0) (f ∷ tail) = rw same at b.above in
    let ascending : IsAscending (f ∷ tail) = rw same at b.ascending in
    let left = source_at-same sources e.source f tail same in
    (
      (
        AtLeast-trans k e.key f.0 low above.0,
        record { above = rw left ascending.0; ascending = rw left ascending.1 },
      ),
      All-mapped (Follows sources k)
          (Follows (set sources e.source (advance (source_at sources e.source))) k) rest
          (λ h p. (p.0, IsBehind-advance sources e.source h p.1)) a,
    )

module _ (pop : Pop) (promises : IsHeapPop pop) where
  pub collect_lem :
      (fuel : ℕ) (heap : List HeapEntry) (sources : List SourceIter) (k : Bytes)
      → All (Follows sources k) heap
      → All (λ o. AtLeast k o.0) (collect pop fuel (record { heap = heap; sources = sources }))
        × IsAscending (collect pop fuel (record { heap = heap; sources = sources }))
  unfolding collect next
  collect_lem zero heap sources k a = (tt, tt)
  collect_lem (suc fuel) [] sources k a =
      let nothing = promises.empty in rw (collect, next, nothing) (tt, tt)
  collect_lem (suc fuel) (x ∷ heap) sources k a =
      let (e, rest, taken, parts, least) = promises.takes x heap in
      let (b, others) = All-Shuffled (Follows sources k) (x ∷ heap) (e ∷ rest) parts a in
      let source = source_at sources e.source in
      let heap' = push_next e.source source rest in
      let sources' = set sources e.source (advance source) in
      let higher = All-both (λ y. entry_lt y e ≡ false) (Follows sources k) rest least others in
      let low = Follows-push_next sources k e rest source refl b others in
      let from_e =
        Follows-push_next sources e.key e rest source refl (AtLeast-refl e.key, b.1)
          (All-mapped (λ y. (entry_lt y e ≡ false) × Follows sources k y) (Follows sources e.key)
            rest (λ h p. (AtLeast-entry_lt e h p.0, p.1.1)) higher) in
      let (all_low, _) = collect_lem fuel heap' sources' k low in
      let (behind, ascending) = collect_lem fuel heap' sources' e.key from_e in
      rw (collect, next, taken) ((b.0, all_low), (behind, ascending))
