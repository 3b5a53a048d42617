-- ===== src/Memtable/SkipList/Drop.antt =====
-- Dropping a list.
use rust_kvdb.Prelude.{
  ℕ, zero, suc, ◌<◌, leb, true, none, some, List, [], ◌∷◌, length, All, ◌≡◌, refl, ◌∙◌, arith,
}
use rust_kvdb.Memtable.Node.{Heap, store, next_at, free}
use rust_kvdb.Memtable.SkipList.{SkipList, drop_loop, drop}
use rust_kvdb.Memtable.SkipList.Cells.{
  Cell, first, Linked, Linked-heap, lanes, Avoids, IsDistinct, store_elsewhere,
}
use rust_kvdb.Memtable.SkipList.Valid.{IsValid, sentinel}

-- The cells are gone, and nothing else.
record Freed (cells : List Cell) (h h' : Heap) : Type 0 where
  gone : All (λ c. h' c.addr ≡ none) cells
  kept : (a : ℕ) → Avoids a cells → h' a ≡ h a

drop_loop_lem :
    (fuel : ℕ) (h : Heap) (cells : List Cell)
    → Linked lanes h cells
    → IsDistinct cells
    → length cells < fuel
    → (h' : Heap) × (drop_loop fuel h (first 0 cells) ≡ some h') × Freed cells h h'
unfolding drop_loop next_at free
drop_loop_lem zero h cells l d lt = absurd (omega arith)
drop_loop_lem (suc fuel) h [] l d lt = (h, refl, record { gone = tt; kept = λ a av. refl })
drop_loop_lem (suc fuel) h (c ∷ cs) (x, l) (dc, d) lt =
    let h1 : Heap = store h c.addr none in
    let (h', e, f) =
      drop_loop_lem fuel h1 cs (Linked-heap lanes h h1 cs (store_elsewhere h c.addr none cs dc) l) d
        (omega arith) in
    let bottom : leb 0 c.height ≡ true = ground arith in
    (
      h',
      rw (bottom, drop_loop, x.at, x.next 0 (omega arith), e) refl,
      record {
        gone = (f.kept c.addr dc ∙ ground arith, f.gone);
        kept = λ a av. let (ne, rest) = av in f.kept a rest ∙ ground arith;
      },
    )

-- Dropping a valid list follows no dangling pointer and frees no node twice, and it frees the
-- sentinel and the node of every entry: none is leaked.
pub drop_lem :
    (s : SkipList) (cells : List Cell)
    → IsValid s cells
    → (h' : Heap) × (drop s ≡ some h') × All (λ c. h' c.addr ≡ none) (sentinel s ∷ cells)
unfolding drop next_at free
drop_lem s cells v =
    let x = v.linked.0 in
    let h1 : Heap = store s.heap s.head none in
    let away = v.distinct.0 in
    let (h', e, f) =
      drop_loop_lem s.fresh h1 cells
        (Linked-heap lanes s.heap h1 cells (store_elsewhere s.heap s.head none cells away)
          v.linked.1)
        v.distinct.1 v.counted in
    (h', rw (x.at, x.next 0 (omega arith), e) refl, (f.kept s.head away ∙ ground arith, f.gone))
