-- ===== src/Merge/Merged.antt =====
-- What the merge iterator yields from its beginning.
use rust_kvdb.Prelude.{
  ℕ, zero, suc, ◌+◌, ◌≤◌, ◌<◌, ◌==◌, ltb, Bool-cases, List, [], ◌∷◌, ◌++◌, length, length-append,
  set, All, ◌≡◌, ◌≢◌, refl, sym, ap, ◌∙◌, inl, inr, arith, append_assoc,
}
use rust_kvdb.Bytes.{Bytes}
use rust_kvdb.Bytes.Order.{compare_bytes}
use rust_kvdb.SortedMap.{Entries}
use rust_kvdb.Merge.{
  HeapEntry, SourceIter, Pop, push_next, advance, advance_all, source_at, seed, new, collect,
}
use rust_kvdb.Merge.Shuffle.{Shuffled, then_, Shuffled-refl, length-Shuffled}
use rust_kvdb.Merge.Ascending.{
  IsHeapPop, IsAscending, AtLeast, Follows, IsBehind-advance, All-mapped, collect_lem,
}
use rust_kvdb.Merge.Complete.{pending, all_of, pending-push_next, still_empty, collect-pending}

at-middle :
    (pre : List SourceIter) (s : SourceIter) (rest : List SourceIter)
    → source_at (pre ++ (s ∷ rest)) (length pre) ≡ s
at-middle [] s rest = refl
at-middle (x ∷ pre) s rest = at-middle pre s rest

set-middle :
    (pre : List SourceIter) (s t : SourceIter) (rest : List SourceIter)
    → set (pre ++ (s ∷ rest)) (length pre) t ≡ pre ++ (t ∷ rest)
set-middle [] s t rest = refl
set-middle (x ∷ pre) s t rest = ap (◌∷◌ x) (set-middle pre s t rest)

at-end : (sources : List SourceIter) (j : ℕ) → length sources ≤ j → source_at sources j ≡ []
at-end [] j h = refl
at-end (s ∷ sources) zero h = absurd (omega arith)
at-end (s ∷ sources) (suc j) h = at-end sources j (omega (arith, h))

AtLeast-nil : (k : Bytes) → AtLeast [] k
unfolding compare_bytes
AtLeast-nil [] = refl
AtLeast-nil (x ∷ k) = refl

-- The heap when the sources before this index have given their first entries to it.
record IsSeeded (all : Entries) (i : ℕ) (heap : List HeapEntry) (sources : List SourceIter)
    : Type 0 where
  follows : All (Follows sources []) heap
  same : Shuffled all (pending heap sources)
  begun : (j : ℕ) → j < i → All (λ h. h.source ≢ j) heap → source_at sources j ≡ []

Follows-first :
    (sources : List SourceIter) (i : ℕ) (heap : List HeapEntry) (source : SourceIter)
    → source_at (set sources i (advance source)) i ≡ advance source
    → source_at sources i ≡ source
    → IsAscending source
    → All (Follows sources []) heap
    → All (Follows (set sources i (advance source)) []) (push_next i source heap)
Follows-first sources i heap [] left at up a =
    All-mapped (Follows sources []) (Follows (set sources i []) []) heap
      (λ h p. (p.0, rw at at (IsBehind-advance sources i h p.1))) a
Follows-first sources i heap (f ∷ tail) left at (above, up) a = (
  (AtLeast-nil f.0, record { above = rw left above; ascending = rw left up }),
  All-mapped (Follows sources []) (Follows (set sources i tail) []) heap
      (λ h p. (p.0, rw at at (IsBehind-advance sources i h p.1))) a,
)

begun-push_next :
    (sources : List SourceIter) (i : ℕ) (heap : List HeapEntry) (source : SourceIter)
    → source_at sources i ≡ source
    → ((j : ℕ) → j < i → All (λ h. h.source ≢ j) heap → source_at sources j ≡ [])
    → (j : ℕ) → j < suc i
    → All (λ h. h.source ≢ j) (push_next i source heap)
    → source_at (set sources i (advance (source_at sources i))) j ≡ []
begun-push_next sources i heap [] at b j lt a = elim (Bool-cases (i == j)) [
  | inl here ↦
      let e : i ≡ j = ground arith in still_empty sources i j (ap (source_at sources) (sym e) ∙ at)
  | inr other ↦ still_empty sources i j (b j (ground arith) a)
]
begun-push_next sources i heap (f ∷ tail) at b j lt (here, a) =
    still_empty sources i j (b j (ground arith) a)

seed_lem :
    (all : Entries) (pre rest : List SourceIter) (heap : List HeapEntry)
    → All IsAscending rest
    → IsSeeded all (length pre) heap (pre ++ rest)
    → IsSeeded all
        (length pre + length rest)
        (seed rest (length pre) heap)
        (pre ++ advance_all rest)
unfolding seed
seed_lem all pre [] heap up s = let n : length pre + 0 ≡ length pre = omega arith in rw n s
seed_lem all pre (source ∷ rest) heap (first, up) s =
    let i = length pre in
    let sources = pre ++ (source ∷ rest) in
    let at : source_at sources i ≡ source = at-middle pre source rest in
    let moved : set sources i (advance source) ≡ (pre ++ (advance source ∷ [])) ++ rest =
      set-middle pre source (advance source) rest
      ∙ sym (append_assoc pre (advance source ∷ []) rest) in
    let left : source_at (set sources i (advance source)) i ≡ advance source =
      ap (λ t. source_at t i) (set-middle pre source (advance source) rest)
      ∙ at-middle pre (advance source) rest in
    let next_i : length (pre ++ (advance source ∷ [])) ≡ suc i =
      omega (arith, length-append pre (advance source ∷ [])) in
    let heap' = push_next i source heap in
    let stepped : IsSeeded all (suc i) heap' (set sources i (advance source)) = record {
      follows = Follows-first sources i heap source left at first s.follows;
      same =
          then_ all (pending heap sources) (pending heap' (set sources i (advance source))) s.same
            (pending-push_next sources i heap source at);
      begun = rw at at (begun-push_next sources i heap source at s.begun);
    } in
    let h1 : IsSeeded all (suc i) heap' ((pre ++ (advance source ∷ [])) ++ rest) =
      rw moved at stepped in
    let h2 : IsSeeded all (length (pre ++ (advance source ∷ []))) heap'
        ((pre ++ (advance source ∷ [])) ++ rest) =
      rw next_i h1 in
    let r = seed_lem all (pre ++ (advance source ∷ [])) rest heap' up h2 in
    let count : suc i + length rest ≡ i + length (source ∷ rest) = omega arith in
    rw (next_i, append_assoc pre (advance source ∷ []) (advance_all rest), count) at r

length-advance_all : (sources : List SourceIter) → length (advance_all sources) ≡ length sources
length-advance_all [] = refl
length-advance_all (s ∷ sources) = omega (arith, length-advance_all sources)

-- Merging sources, each in the order of its keys, yields all their entries, each as often as they
-- have it, with no key below one before it, in as many steps as there are entries or more. The
-- heap must do what the standard library promises of it.
pub collect_new_lem :
    (pop : Pop) (sources : List SourceIter) (fuel : ℕ)
    → IsHeapPop pop
    → All IsAscending sources
    → length (all_of sources) ≤ fuel
    → Shuffled (all_of sources) (collect pop fuel (new sources))
      × IsAscending (collect pop fuel (new sources))
unfolding new
collect_new_lem pop sources fuel promises up enough =
    let start : IsSeeded (all_of sources) 0 [] sources = record {
      follows = tt;
      same = Shuffled-refl (all_of sources);
      begun = λ j lt a. absurd (omega arith);
    } in
    let s = seed_lem (all_of sources) [] sources [] up start in
    let heap = seed sources 0 [] in
    let gone = advance_all sources in
    let count = length-Shuffled (all_of sources) (pending heap gone) s.same in
    (
      then_ (all_of sources) (pending heap gone) _ s.same (
          collect-pending pop promises fuel heap gone
            (λ i a. elim (Bool-cases (ltb i (length sources))) [
              | inl begun ↦ s.begun i (ground arith) a
              | inr past ↦ at-end gone i (ground (arith, length-advance_all sources))
            ])
            (omega (arith, count, enough))),
      (collect_lem pop promises fuel heap gone [] s.follows).1,
    )
