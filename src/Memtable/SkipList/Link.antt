-- ===== src/Memtable/SkipList/Link.antt =====
-- Linking a new node into a valid list.
use rust_kvdb.Prelude.{
  ℕ, zero, suc, ◌+◌, ◌≤◌, ◌<◌, none, some, List, [], ◌∷◌, ◌++◌, length-replicate, take, ◌≡◌, refl,
  sym, ◌∙◌, ap, arith,
}
use rust_kvdb.Bytes.{Bytes}
use rust_kvdb.Memtable.Node.{Ptr, Node, Heap, store, new_node}
use rust_kvdb.Memtable.SkipList.{SkipList, splice}
use rust_kvdb.Memtable.SkipList.Cells.{
  Cell, last_addr, Linked, Linked-heap, Linked-split, lanes, lanes_before, Avoids, All-parts,
  IsDistinct-parts, Avoids-new, store_elsewhere,
}
use rust_kvdb.Memtable.SkipList.Walk.{updates}
use rust_kvdb.Memtable.SkipList.Valid.{IsValid, sentinel, Split}
use rust_kvdb.Memtable.SkipList.Splice.{mixed}
use rust_kvdb.Memtable.SkipList.Lanes.{
  Spliced, Apart, preds, splice_loop, Linked-Spliced, Linked-same,
}

preds-snoc :
    (k n a : ℕ) (below : List Cell)
    → preds k (suc n) a below ≡ preds k n a below ++ (last_addr (k + n) a below ∷ [])
preds-snoc k zero a below =
    let q : k + 0 ≡ k = omega arith in ap (λ i. last_addr i a below ∷ []) (sym q)
preds-snoc k (suc n) a below =
    let q : suc k + n ≡ k + suc n = omega arith in
    ap (◌∷◌ (last_addr k a below)) (
      preds-snoc (suc k) n a below
      ∙ ap (λ i. preds (suc k) n a below ++ (last_addr i a below ∷ [])) q)

updates-preds : (m a : ℕ) (below : List Cell) → updates m a below ≡ preds 0 m a below
updates-preds zero a below = refl
updates-preds (suc m) a below =
    let q : 0 + m ≡ m = omega arith in
    ap (λ l. l ++ (last_addr m a below ∷ [])) (updates-preds m a below)
    ∙ ap (λ i. preds 0 m a below ++ (last_addr i a below ∷ [])) (sym q)
    ∙ sym (preds-snoc 0 m a below)

take-preds :
    (l k m a : ℕ) (below : List Cell) → l ≤ m → take l (preds k m a below) ≡ preds k l a below
take-preds zero k m a below h = refl
take-preds (suc l) k zero a below h = absurd (omega arith)
take-preds (suc l) k (suc m) a below h =
    ap (◌∷◌ (last_addr k a below)) (take-preds l (suc k) m a below (omega arith))

-- In a valid list, split at a key, let a node of a level below the maximum be allocated. The loop
-- that splices it in, after the nodes that the search noted, follows no bad pointer, and links it
-- between the two parts in every lane up to its level, with the other links unchanged.
pub splice_lem :
    (s : SkipList) (cells : List Cell) (key value : Bytes) (level : ℕ) (p : Split key cells)
    → IsValid s cells
    → level < s.max_level
    → (h' : Heap) × (splice s.fresh 0
          (take (level + 1) (updates s.max_level s.head p.below))
          (store s.heap s.fresh (some (new_node key value level)))
        ≡ some h')
      × Linked lanes h' (
          sentinel s
          ∷ (p.below
              ++ (record { addr = s.fresh; key = key; value = value; height = level } ∷ p.above)))
splice_lem s cells key value level p v lt =
    let c : Cell = record { addr = s.fresh; key = key; value = value; height = level } in
    let node : Node = new_node key value level in
    let h : Heap = store s.heap s.fresh (some node) in
    let pre = sentinel s ∷ p.below in
    let post = p.above in
    let old = All-parts (λ c. c.addr < s.fresh) pre post (rw p.parts at v.old) in
    let apart_cells = IsDistinct-parts pre post (rw p.parts at v.distinct) in
    let new_front : Avoids s.fresh pre = Avoids-new s.fresh pre old.0 in
    let new_back : Avoids s.fresh post = Avoids-new s.fresh post old.1 in
    let linked : Linked lanes s.heap (pre ++ post) = rw p.parts at v.linked in
    let parts = Linked-split s.heap pre post linked in
    let apart : Apart c (sentinel s) p.below post = record {
      reach = omega arith;
      new_front = new_front;
      new_back = new_back;
      distinct = apart_cells.0;
      disjoint = apart_cells.1;
    } in
    let start : Spliced 0 c pre post h = record {
      front =
          Linked-same (lanes_before post) (mixed 0 c post) h pre (λ es i. ground arith)
            (Linked-heap (lanes_before post) s.heap h pre
              (store_elsewhere s.heap s.fresh (some node) pre new_front) parts.0);
      back =
          Linked-heap lanes s.heap h post (store_elsewhere s.heap s.fresh (some node) post new_back)
            parts.1;
      node = node;
      at = ground arith;
      key = refl;
      value = refl;
      tall = omega (arith, length-replicate {A = Ptr} (level + 1) none);
      next = λ i small le. absurd (omega arith);
    } in
    let (h', e, done) =
      splice_loop c (sentinel s) p.below post apart (suc level) 0 h (omega arith) start in
    let q : level + 1 ≡ suc level = omega arith in
    let noted : take (level + 1) (updates s.max_level s.head p.below)
        ≡ preds 0 (suc level) s.head p.below =
      ap (take (level + 1)) (updates-preds s.max_level s.head p.below)
      ∙ take-preds (level + 1) 0 s.max_level s.head p.below (omega arith)
      ∙ ap (λ n. preds 0 n s.head p.below) q in
    (h', ap (λ u. splice s.fresh 0 u h) noted ∙ e, Linked-Spliced c pre post h' done)
