-- ===== src/Merge.antt =====
-- src/compaction/merge_iterator.rs: the merge of sorted sources, the smallest key first. `pop` is
-- `BinaryHeap::pop`, of `Reverse` entries: it takes out a least entry, by `entry_lt`.
pub mod Shuffle
pub mod Ascending
pub mod Complete
pub mod Merged
use rust_kvdb.Prelude.{
  ℕ, zero, suc, ltb, Bool, true, false, Option, none, some, List, [], ◌∷◌, get_elem?, set, Ordering,
}
use rust_kvdb.Bytes.{Bytes}
use rust_kvdb.Bytes.Order.{compare_bytes}

pub record HeapEntry : Type 0 where
  pub key : Bytes
  pub value : Bytes
  pub source : ℕ

-- The rest of a source.
abbrev pub SourceIter : Type 0
SourceIter = List (Bytes × Bytes)

-- `heap` holds the entries of the `BinaryHeap`; which one it pops is decided by their order alone.
pub record MergeIterator : Type 0 where
  pub heap : List HeapEntry
  pub sources : List SourceIter

-- `self < other` for `HeapEntry::cmp`: by key, then by source
unfoldable pub entry_lt : HeapEntry → HeapEntry → Bool
unfolding compare_bytes
entry_lt a b = elim (compare_bytes a.key b.key) [
  | Ordering.lt ↦ true
  | Ordering.eq ↦ ltb a.source b.source
  | Ordering.gt ↦ false
]

-- What `heap.pop()` returns: an entry, and the heap without it.
abbrev pub Pop : Type 0
Pop = List HeapEntry → Option (HeapEntry × List HeapEntry)

-- `if let Some((key, value)) = source.next() { heap.push(..) }`
abbrev pub push_next : ℕ → SourceIter → List HeapEntry → List HeapEntry
push_next idx [] heap = heap
push_next idx (e ∷ rest) heap = record { key = e.0; value = e.1; source = idx } ∷ heap

abbrev pub advance : SourceIter → SourceIter
advance [] = []
advance (e ∷ rest) = rest

-- `for (idx, source) in sources.iter_mut().enumerate()`, from `idx` on
unfoldable pub seed : List SourceIter → ℕ → List HeapEntry → List HeapEntry
seed [] idx heap = heap
seed (source ∷ sources) idx heap = seed sources (suc idx) (push_next idx source heap)

abbrev pub advance_all : List SourceIter → List SourceIter
advance_all [] = []
advance_all (source ∷ sources) = advance source ∷ advance_all sources

unfoldable pub new : List SourceIter → MergeIterator
unfolding seed
new sources = record { heap = seed sources 0 []; sources = advance_all sources }

-- `self.sources[i]`; an index out of range does not occur, as the heap only holds sources.
abbrev pub source_at : List SourceIter → ℕ → SourceIter
source_at sources i = elim (get_elem? sources i) [ none ↦ [] | some s ↦ s ]

module _ (pop : Pop) where
  unfoldable pub next : MergeIterator → Option ((Bytes × Bytes) × MergeIterator)
  next m = elim (pop m.heap) [
    | none ↦ none
    | some p ↦
        let source = source_at m.sources p.0.source in
        some (
          (p.0.key, p.0.value),
          record {
            heap = push_next p.0.source source p.1;
            sources = set m.sources p.0.source (advance source);
          },
        )
  ]

  -- All that the iterator yields, with as many steps at most.
  unfoldable pub collect : ℕ → MergeIterator → List (Bytes × Bytes)
  unfolding next
  collect zero m = []
  collect (suc fuel) m = elim (next m) [ none ↦ [] | some p ↦ p.0 ∷ collect fuel p.1 ]
