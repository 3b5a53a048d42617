-- ===== src/Memtable/SkipList/Scan.antt =====
-- What the iterators yield.
use rust_kvdb.Prelude.{
  ℕ, zero, suc, ◌<◌, leb, true, false, some, List, [], ◌∷◌, ◌++◌, length, length-append, All, ◌≡◌,
  refl, sym, ap, arith, Ordering, Bool-cases, inl, inr,
}
use rust_kvdb.Bytes.{Bytes}
use rust_kvdb.Bytes.Order.{compare_bytes, bytes_lt, compare_bytes_trans}
use rust_kvdb.SortedMap.{range}
use rust_kvdb.Memtable.Node.{Heap, next_at}
use rust_kvdb.Memtable.SkipList.{SkipList, full_iterator, iter, scan_iterator, scan}
use rust_kvdb.Memtable.SkipList.Cells.{
  Cell, first, Linked, Linked-split, lanes, Below, NotBelow, IsSorted,
}
use rust_kvdb.Memtable.SkipList.Valid.{IsValid, contents, IsSorted-Split, descend-Split}
use rust_kvdb.Memtable.SkipList.Get.{IsSorted-append_right}

full_iterator_lem :
    (fuel : ℕ) (h : Heap) (cells : List Cell)
    → Linked lanes h cells
    → length cells < fuel
    → full_iterator fuel h (first 0 cells) ≡ some (contents cells)
unfolding full_iterator next_at
full_iterator_lem zero h cells l lt = absurd (omega arith)
full_iterator_lem (suc fuel) h [] l lt = refl
full_iterator_lem (suc fuel) h (c ∷ cs) (x, l) lt =
    let bottom : leb 0 c.height ≡ true = ground arith in
    rw
      (
        bottom,
        full_iterator,
        x.at,
        x.next 0 (omega arith),
        x.key,
        x.value,
        full_iterator_lem fuel h cs l (omega arith),
      )
      refl

-- On a valid skip list `iter` follows no bad pointer, and yields every entry, in key order.
pub iter-contents :
    (s : SkipList) (cells : List Cell) → IsValid s cells → iter s ≡ some (contents cells)
unfolding iter next_at
iter-contents s cells v =
    let x = v.linked.0 in
    rw (x.at, x.next 0 (omega arith)) (full_iterator_lem s.fresh s.heap cells v.linked.1 v.counted)

-- Behind a key that is not below the end, no key is in the range.
range_behind :
    (start end k : Bytes) (cs : List Cell)
    → bytes_lt k end ≡ false
    → All (λ d. compare_bytes k d.key ≡ Ordering.lt) cs
    → range start end (contents cs) ≡ []
unfolding range
range_behind start end k [] out h = refl
range_behind start end k (d ∷ cs) out (x, h) =
    ground (arith, compare_bytes_trans k d.key end, range_behind start end k cs out h)

scan_iterator_lem :
    (fuel : ℕ) (h : Heap) (start end : Bytes) (cells : List Cell)
    → Linked lanes h cells
    → IsSorted cells
    → All (NotBelow start) cells
    → length cells < fuel
    → scan_iterator fuel h end (first 0 cells) ≡ some (range start end (contents cells))
unfolding scan_iterator next_at range
scan_iterator_lem zero h start end cells l s nb lt = absurd (omega arith)
scan_iterator_lem (suc fuel) h start end [] l s nb lt = refl
scan_iterator_lem (suc fuel) h start end (c ∷ cs) (x, l) (f, s) (n, nb) lt =
    let bottom : leb 0 c.height ≡ true = ground arith in
    let rest = scan_iterator_lem fuel h start end cs l s nb (omega arith) in
    elim (Bool-cases (bytes_lt c.key end)) [
      | inl in_ ↦
          rw (bottom, scan_iterator, x.at, x.next 0 (omega arith), x.key, x.value, rest, n, in_)
            refl
      | inr out ↦
          rw (bottom, scan_iterator, x.at, x.key, n, out)
            (ap some (sym (range_behind start end c.key cs out f)))
    ]

range-Below :
    (start end : Bytes) (below above : List Cell)
    → All (Below start) below
    → range start end (contents (below ++ above)) ≡ range start end (contents above)
unfolding range
range-Below start end [] above h = refl
range-Below start end (c ∷ below) above (x, h) = rw x (range-Below start end below above h)

-- On a valid skip list `scan` follows no bad pointer, and yields the entries whose keys are in the
-- range from `start` on and below `end`, in key order.
pub scan-range :
    (s : SkipList) (cells : List Cell) (start end : Bytes)
    → IsValid s cells
    → scan start end s ≡ some (range start end (contents cells))
unfolding scan
scan-range s cells start end v =
    let p = IsSorted-Split start cells v.sorted in
    let (down, next, l) = descend-Split s cells start v p in
    let sorted : IsSorted (p.below ++ p.above) = rw p.parts at v.sorted in
    rw (down, next, p.parts, range-Below start end p.below p.above p.less)
      (scan_iterator_lem s.fresh s.heap start end p.above (Linked-split s.heap p.below p.above l).1
        (IsSorted-append_right p.below p.above sorted) p.rest
        (omega (arith, v.counted, ap length p.parts, length-append p.below p.above)))
