-- ===== src/Memtable/SkipList/New.antt =====
-- The list that `SkipList::new` makes.
use rust_kvdb.Prelude.{
  ℕ, zero, suc, ◌+◌, ◌-◌, ◌<◌, none, some, [], length-replicate, get_elem?, replicate, ◌≡◌, refl,
  arith,
}
use rust_kvdb.Memtable.Node.{Ptr, Node, Heap, store, new_node, size_of_skip_list}
use rust_kvdb.Memtable.SkipList.{SkipList, new}
use rust_kvdb.Memtable.SkipList.Cells.{Holds, lanes}
use rust_kvdb.Memtable.SkipList.Valid.{IsValid, sentinel}

get_elem?-replicate : (n i : ℕ) → i < n → get_elem? (replicate {A = Ptr} n none) i ≡ some none
get_elem?-replicate zero i h = absurd (omega arith)
get_elem?-replicate (suc n) zero h = refl
get_elem?-replicate (suc n) (suc i) h = get_elem?-replicate n i (omega arith)

-- With at least one level `new` does not fail its assertion, and makes a valid list of no
-- entries, with as many levels, whose size is that of its header.
pub new-IsValid :
    (max_level : ℕ)
    → 0 < max_level
    → (s : SkipList) × (new max_level ≡ some s)
      × IsValid s []
      × (s.max_level ≡ max_level)
      × (s.size ≡ size_of_skip_list)
unfolding new
new-IsValid max_level h =
    let node : Node = new_node [] [] (max_level - 1) in
    let heap : Heap = store (λ a. none) 0 (some node) in
    let s : SkipList = record {
      heap = heap;
      fresh = 1;
      head = 0;
      max_level = max_level;
      size = size_of_skip_list;
    } in
    let x : Holds heap (sentinel s) (lanes []) = record {
      node = node;
      at = refl;
      key = refl;
      value = refl;
      tall = omega (arith, length-replicate {A = Ptr} (max_level - 1 + 1) none);
      next = λ i le. get_elem?-replicate (max_level - 1 + 1) i (omega arith);
    } in
    (
      s,
      ground arith,
      record {
        positive = h;
        linked = (x, tt);
        sorted = tt;
        heights = tt;
        distinct = (tt, tt);
        old = (omega arith, tt);
        counted = omega arith;
      },
      refl,
      refl,
    )
