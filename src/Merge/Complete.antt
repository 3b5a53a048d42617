-- ===== src/Merge/Complete.antt =====
-- The merge iterator yields every entry of its sources, as often as they have it.
use rust_kvdb.Prelude.{
  ℕ, zero, suc, ◌≤◌, List, [], ◌∷◌, ◌++◌, map, length, set, All, ◌≡◌, ◌≢◌, refl, sym, ap, ◌∙◌, inl,
  inr, arith, Bool-cases, ◌==◌,
}
use rust_kvdb.Bytes.{Bytes}
use rust_kvdb.SortedMap.{Entries}
use rust_kvdb.Merge.{HeapEntry, SourceIter, Pop, push_next, advance, source_at, next, collect}
use rust_kvdb.Merge.Shuffle.{
  Shuffled, then_, keep, none_, All-Shuffled, Shuffled-refl, Shuffled-middle, Shuffled-left,
  Shuffled-map, Shuffled-sym, length-Shuffled,
}
use rust_kvdb.Merge.Ascending.{IsHeapPop, source_at-advance}

abbrev pub entry_of : HeapEntry → Bytes × Bytes
entry_of h = (h.key, h.value)

-- All the entries of the sources.
abbrev pub all_of : List SourceIter → Entries
all_of [] = []
all_of (s ∷ sources) = s ++ all_of sources

-- What is still to come.
abbrev pub pending : List HeapEntry → List SourceIter → Entries
pending heap sources = map entry_of heap ++ all_of sources

all_of-empty :
    (sources : List SourceIter) (i : ℕ)
    → source_at sources i ≡ []
    → all_of (set sources i []) ≡ all_of sources
all_of-empty [] i e = refl
all_of-empty (s ∷ sources) zero e = rw e refl
all_of-empty (s ∷ sources) (suc i) e = ap (◌++◌ s) (all_of-empty sources i e)

all_of-taken :
    (sources : List SourceIter) (i : ℕ) (f : Bytes × Bytes) (tail : SourceIter)
    → source_at sources i ≡ f ∷ tail
    → Shuffled (all_of sources) (f ∷ all_of (set sources i tail))
all_of-taken [] i f tail e = absurd (cc e)
all_of-taken (s ∷ sources) zero f tail e = rw e (Shuffled-refl (f ∷ (tail ++ all_of sources)))
all_of-taken (s ∷ sources) (suc i) f tail e =
    let later = all_of (set sources i tail) in
    then_ (s ++ all_of sources) (s ++ (f ∷ later)) (f ∷ (s ++ later))
      (Shuffled-left s (all_of sources) (f ∷ later) (all_of-taken sources i f tail e))
      (Shuffled-middle f s later)

pub pending-push_next :
    (sources : List SourceIter) (i : ℕ) (rest : List HeapEntry) (source : SourceIter)
    → source_at sources i ≡ source
    → Shuffled
        (pending rest sources)
        (pending (push_next i source rest) (set sources i (advance source)))
pending-push_next sources i rest [] same =
    rw (all_of-empty sources i same) (Shuffled-refl (pending rest sources))
pending-push_next sources i rest (f ∷ tail) same =
    let later = all_of (set sources i tail) in
    let es = map entry_of rest in
    then_ (es ++ all_of sources) (es ++ (f ∷ later)) (f ∷ (es ++ later))
      (Shuffled-left es (all_of sources) (f ∷ later) (all_of-taken sources i f tail same))
      (Shuffled-middle f es later)

-- A source from which the heap has no entry is at its end.
abbrev pub HasAll : List HeapEntry → List SourceIter → Type 0
HasAll heap sources = (i : ℕ) → All (λ h. h.source ≢ i) heap → source_at sources i ≡ []

pub still_empty :
    (sources : List SourceIter) (i j : ℕ)
    → source_at sources j ≡ []
    → source_at (set sources i (advance (source_at sources i))) j ≡ []
still_empty sources i j e = elim (source_at-advance sources i j) [
  | inl same ↦ same ∙ e
  | inr less ↦ less ∙ ap advance e
]

all_of-nothing :
    (sources : List SourceIter) → ((i : ℕ) → source_at sources i ≡ []) → all_of sources ≡ []
all_of-nothing [] e = refl
all_of-nothing (s ∷ sources) e =
    let first : s ≡ [] = e 0 in rw first (all_of-nothing sources (λ i. e (suc i)))

HasAll-push_next :
    (heap rest : List HeapEntry) (sources : List SourceIter) (e : HeapEntry) (source : SourceIter)
    → Shuffled heap (e ∷ rest)
    → HasAll heap sources
    → source_at sources e.source ≡ source
    → HasAll
        (push_next e.source source rest)
        (set sources e.source (advance (source_at sources e.source)))
HasAll-push_next heap rest sources e [] parts h same i a = elim (Bool-cases (e.source == i)) [
  | inl here ↦
      let at : e.source ≡ i = ground arith in
      still_empty sources e.source i (ap (source_at sources) (sym at) ∙ same)
  | inr other ↦ still_empty sources e.source i (
      h i (
        All-Shuffled (λ y. y.source ≢ i) (e ∷ rest) heap (Shuffled-sym heap (e ∷ rest) parts)
          ((λ q. ground arith), a)))
]
HasAll-push_next heap rest sources e (f ∷ tail) parts h same i a =
    still_empty sources e.source i (
      h i (All-Shuffled (λ y. y.source ≢ i) (e ∷ rest) heap (Shuffled-sym heap (e ∷ rest) parts) a))

module _ (pop : Pop) (promises : IsHeapPop pop) where
  pub collect-pending :
      (fuel : ℕ) (heap : List HeapEntry) (sources : List SourceIter)
      → HasAll heap sources
      → length (pending heap sources) ≤ fuel
      → Shuffled
          (pending heap sources)
          (collect pop fuel (record { heap = heap; sources = sources }))
  unfolding collect next
  collect-pending zero [] sources h enough = rw (all_of-nothing sources (λ i. h i tt)) none_
  collect-pending zero (x ∷ heap) sources h enough = absurd (omega arith)
  collect-pending (suc fuel) [] sources h enough =
      rw (collect, next, promises.empty, all_of-nothing sources (λ i. h i tt)) none_
  collect-pending (suc fuel) (x ∷ heap) sources h enough =
      let (e, rest, taken, parts, least) = promises.takes x heap in
      let source = source_at sources e.source in
      let heap' = push_next e.source source rest in
      let sources' = set sources e.source (advance source) in
      let first = Shuffled-map entry_of (x ∷ heap) (e ∷ rest) (all_of sources) parts in
      let second = pending-push_next sources e.source rest source refl in
      let all =
        then_ (pending (x ∷ heap) sources) (entry_of e ∷ pending rest sources)
          (entry_of e ∷ pending heap' sources') first
          (keep (entry_of e) (pending rest sources) (pending heap' sources') second) in
      let fewer = length-Shuffled _ _ all in
      let more =
        collect-pending fuel heap' sources'
          (HasAll-push_next (x ∷ heap) rest sources e source parts h refl)
          (omega (arith, fewer, enough)) in
      rw (collect, next, taken)
        (then_ (pending (x ∷ heap) sources) (entry_of e ∷ pending heap' sources') _ all
          (keep (entry_of e) (pending heap' sources') _ more))
