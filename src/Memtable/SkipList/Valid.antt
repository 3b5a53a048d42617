-- ===== src/Memtable/SkipList/Valid.antt =====
-- The invariant of the skip list, and the lookup.
use rust_kvdb.Prelude.{
  ℕ, ◌-◌, ◌<◌, leb, true, false, none, some, List, [], ◌∷◌, ◌++◌, length, length-append, get_elem?,
  map, All, ◌≡◌, refl, ap, arith, Ordering, Bool-cases, inl, inr,
}
use rust_kvdb.Bytes.{Bytes}
use rust_kvdb.Bytes.Order.{compare_bytes, bytes_lt, compare_bytes_trans, compare_bytes-flip_lt}
use rust_kvdb.SortedMap.{Entries, lookup}
use rust_kvdb.Memtable.Node.{Node, Heap, next_at}
use rust_kvdb.Memtable.SkipList.{SkipList, descend}
use rust_kvdb.Memtable.SkipList.Cells.{
  Cell, first, last_addr, Holds, Linked, lanes, Below, NotBelow, IsSorted, IsDistinct,
}
use rust_kvdb.Memtable.SkipList.Walk.{descend-last_addr, updates}

-- The sentinel, as a cell.
abbrev pub sentinel : SkipList → Cell
sentinel s = record { addr = s.head; key = []; value = []; height = s.max_level - 1 }

-- The heap holds the sentinel and the cells, linked in each lane in strict key order.
pub record IsValid (s : SkipList) (cells : List Cell) : Type 0 where
  pub positive : 0 < s.max_level
  pub linked : Linked lanes s.heap (sentinel s ∷ cells)
  pub sorted : IsSorted cells
  pub heights : All (λ c. c.height < s.max_level) cells
  pub distinct : IsDistinct (sentinel s ∷ cells)
  pub old : All (λ c. c.addr < s.fresh) (sentinel s ∷ cells)
  pub counted : length cells < s.fresh

-- The map that the list stands for.
abbrev pub contents : List Cell → Entries
contents = map (λ c. (c.key, c.value))

not_below :
    (c : Bytes) (key : Bytes) (ds : List Cell)
    → bytes_lt c key ≡ false
    → All (λ d. compare_bytes c d.key ≡ Ordering.lt) ds
    → All (NotBelow key) ds
not_below c key [] nb h = tt
not_below c key (d ∷ ds) nb (x, h) =
    (ground (arith, compare_bytes_trans c d.key key), not_below c key ds nb h)

-- Sorted cells split at a key.
pub record Split (key : Bytes) (cells : List Cell) : Type 0 where
  pub below : List Cell
  pub above : List Cell
  pub parts : cells ≡ below ++ above
  pub less : All (Below key) below
  pub rest : All (NotBelow key) above

pub IsSorted-Split : (key : Bytes) (cells : List Cell) → IsSorted cells → Split key cells
IsSorted-Split key [] s = record { below = []; above = []; parts = refl; less = tt; rest = tt }
IsSorted-Split key (c ∷ cs) (x, s) = elim (Bool-cases (bytes_lt c.key key)) [
  | inl lower ↦
      let r = IsSorted-Split key cs s in
      record {
        below = c ∷ r.below;
        above = r.above;
        parts = ap (◌∷◌ c) r.parts;
        less = (lower, r.less);
        rest = r.rest;
      }
  | inr higher ↦ record {
    below = [];
    above = c ∷ cs;
    parts = refl;
    less = tt;
    rest = (higher, not_below c.key key cs higher x);
  }
]

-- In lane 0 the search ends before the first cell that is not below the key.
pub next_at-last_addr :
    (h : Heap) (a : ℕ) (n : Node) (below above : List Cell)
    → h a ≡ some n
    → get_elem? n.next 0 ≡ some (first 0 (below ++ above))
    → Linked lanes h (below ++ above)
    → next_at h (last_addr 0 a below) 0 ≡ some (first 0 above)
unfolding next_at
next_at-last_addr h a n [] above at next l = rw at next
next_at-last_addr h a n (c ∷ below) above at next (x, l) =
    let bottom : leb 0 c.height ≡ true = ground arith in
    rw bottom (next_at-last_addr h c.addr x.node below above x.at (x.next 0 (omega arith)) l)

-- Where the search of a valid list ends.
pub descend-Split :
    (s : SkipList) (cells : List Cell) (key : Bytes) (v : IsValid s cells) (p : Split key cells)
    → (descend s.max_level s.fresh s.heap s.head key
        ≡ some (last_addr 0 s.head p.below, updates s.max_level s.head p.below))
      × (next_at s.heap (last_addr 0 s.head p.below) 0 ≡ some (first 0 p.above))
      × Linked lanes s.heap (p.below ++ p.above)
descend-Split s cells key v p =
    let l : Linked lanes s.heap (p.below ++ p.above) = rw p.parts at v.linked.1 in
    let x : Holds s.heap (sentinel s) (lanes (p.below ++ p.above)) = rw p.parts at v.linked.0 in
    (
      descend-last_addr s.heap key p.above p.rest s.fresh s.max_level s.head x.node p.below x.at
          (λ i lt. x.next i (omega arith)) l p.less
          (omega (arith, v.counted, ap length p.parts, length-append p.below p.above)) v.positive,
      next_at-last_addr s.heap s.head x.node p.below p.above x.at (x.next 0 (omega arith)) l,
      l,
    )

pub lookup_above :
    (key : Bytes) (c : Bytes) (cs : List Cell)
    → compare_bytes key c ≡ Ordering.lt
    → All (λ d. compare_bytes c d.key ≡ Ordering.lt) cs
    → lookup key (contents cs) ≡ none
unfolding lookup
lookup_above key c [] lt h = refl
lookup_above key c (d ∷ cs) lt (x, h) = ground (
  arith,
  compare_bytes_trans key c d.key,
  compare_bytes-flip_lt key d.key,
  lookup_above key c cs lt,
)
