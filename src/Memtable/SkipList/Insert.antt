-- ===== src/Memtable/SkipList/Insert.antt =====
-- `insert` on a valid list.
use rust_kvdb.Prelude.{
  ℕ, suc, ◌+◌, ◌*◌, ◌≤◌, ◌<◌, leb, if◌then◌else◌, true, false, Option, none, some, List, [], ◌∷◌,
  ◌++◌, length, length-append, All, ◌≡◌, ◌≢◌, refl, sym, ◌∙◌, ap, arith, Ordering,
}
use rust_kvdb.Bytes.{Bytes}
use rust_kvdb.Bytes.Order.{compare_bytes, bytes_eq, compare_bytes-flip_lt}
use rust_kvdb.SortedMap
use rust_kvdb.Memtable.Node.{
  ◌>>=◌, Ptr, Node, Heap, store, free, new_node, size_of_pointer, size_of_node, size_of_vec,
}
use rust_kvdb.Memtable.SkipList.{
  SkipList, insert, insert_at, link, overwrite, xorshift, random_level,
}
use rust_kvdb.Memtable.SkipList.Level.{random_level-lt}
use rust_kvdb.Memtable.SkipList.Cells.{
  Cell, first, Linked, Linked-heap, Linked-split, lanes, IsSorted, IsDistinct, All-parts,
  Avoids-new, store_elsewhere,
}
use rust_kvdb.Memtable.SkipList.Walk.{updates}
use rust_kvdb.Memtable.SkipList.Valid.{
  IsValid, sentinel, contents, Split, IsSorted-Split, descend-Split,
}
use rust_kvdb.Memtable.SkipList.Get.{IsSorted-append_right}
use rust_kvdb.Memtable.SkipList.Link.{splice_lem}
use rust_kvdb.Memtable.SkipList.Middle.{
  Above, All-middle, All-weaken, IsSorted-middle, IsDistinct-middle, Found-cases, here, gone,
  insert-new, insert-old,
}
use rust_kvdb.Memtable.SkipList.Overwrite.{
  All-swap, IsSorted-swap, IsDistinct-swap, length-swap, Linked-swap,
}

-- The most that an entry adds to the size of a list with this many levels.
abbrev pub entry_cost : ℕ → Bytes → Bytes → ℕ
entry_cost max_level key value =
    length key + length value + max_level * size_of_pointer + size_of_node + 2 * size_of_vec

-- What an insertion leaves: a valid list of the same levels, whose map has the entry put into it.
pub record Inserted (key value : Bytes) (s : SkipList) (cells : List Cell) (s' : SkipList)
    : Type 0 where
  pub cells' : List Cell
  pub valid : IsValid s' cells'
  pub content : contents cells' ≡ SortedMap.insert key value (contents cells)
  pub levels : s'.max_level ≡ s.max_level
  pub grown : s'.size ≤ s.size + entry_cost s.max_level key value

-- The list with a node at the next address, in no lane.
abbrev allocated : SkipList → Node → SkipList
allocated s n = record s { heap = store s.heap s.fresh (some n) }

allocated-IsValid :
    (s : SkipList) (cells : List Cell) (n : Node) → IsValid s cells → IsValid (allocated s n) cells
allocated-IsValid s cells n v = record {
  positive = v.positive;
  linked =
      Linked-heap lanes s.heap (allocated s n).heap (sentinel s ∷ cells)
        (store_elsewhere s.heap s.fresh (some n) (sentinel s ∷ cells)
          (Avoids-new s.fresh (sentinel s ∷ cells) v.old))
        v.linked;
  sorted = v.sorted;
  heights = v.heights;
  distinct = v.distinct;
  old = v.old;
  counted = v.counted;
}

module _ (s : SkipList) (key value : Bytes) (level : ℕ) (low : level < s.max_level) where
  abbrev cell : Cell
  cell = record { addr = s.fresh; key = key; value = value; height = level }

  abbrev node : Node
  node = new_node key value level

  abbrev grown_by : Heap → SkipList
  grown_by h' = record s {
    heap = h';
    fresh = suc s.fresh;
    size =
        s.size
        + (length key
            + length value
            + (level + 1) * size_of_pointer
            + size_of_node
            + 2 * size_of_vec);
  }

  -- The branch that links a new node.
  link_lem :
      (cells : List Cell) (v : IsValid s cells) (p : Split key cells)
      → Above key p.above
      → (s' : SkipList) × (link level
            (updates s.max_level s.head p.below)
            key
            value
            (allocated s node).heap
            s
          ≡ some s')
        × Inserted key value s cells s'
  unfolding link
  link_lem cells v p a =
      let (h', e, linked) = splice_lem s cells key value level p v low in
      let pre = sentinel s ∷ p.below in
      let old : All (λ c. c.addr < s.fresh) (pre ++ p.above) = rw p.parts at v.old in
      let distinct : IsDistinct (pre ++ p.above) = rw p.parts at v.distinct in
      let sorted : IsSorted (p.below ++ p.above) = rw p.parts at v.sorted in
      let heights : All (λ c. c.height < s.max_level) (p.below ++ p.above) =
        rw p.parts at v.heights in
      let grown =
        All-weaken (λ c. c.addr < s.fresh) (λ c. c.addr < suc s.fresh) (pre ++ p.above)
          (λ c q. omega (arith, q)) old in
      (
        grown_by h',
        rw (e, link) refl,
        record {
          cells' = p.below ++ (cell ∷ p.above);
          valid = record {
            positive = v.positive;
            linked = linked;
            sorted = IsSorted-middle p.below p.above cell p.less a sorted;
            heights = All-middle (λ c. c.height < s.max_level) p.below p.above cell low heights;
            distinct =
                IsDistinct-middle pre p.above cell (Avoids-new s.fresh (pre ++ p.above) old)
                  distinct;
            old = All-middle (λ c. c.addr < suc s.fresh) pre p.above cell (omega arith) grown;
            counted = omega (
              arith,
              v.counted,
              ap length p.parts,
              length-append p.below p.above,
              length-append p.below (cell ∷ p.above),
            );
          };
          content = sym (
              ap (λ c. SortedMap.insert key value (contents c)) p.parts
              ∙ insert-new key value p.below p.above cell refl refl p.less a);
          levels = refl;
          grown = omega (arith, low);
        },
      )

  -- The branch that overwrites the value of the key.
  overwrite_lem :
      (cells : List Cell) (v : IsValid s cells) (p : Split key cells) (c : Cell) (rest : List Cell)
      (n : Node)
      → p.above ≡ c ∷ rest
      → compare_bytes c.key key ≡ Ordering.eq
      → (allocated s node).heap c.addr ≡ some n
      → (s' : SkipList) × (overwrite c.addr n value (allocated s node).heap s ≡ some s')
        × Inserted key value s cells s'
  unfolding overwrite free
  overwrite_lem cells v p c rest n first_c same_key at =
      let d : Cell = record c { value = value } in
      let h = (allocated s node).heap in
      let parts : cells ≡ p.below ++ (c ∷ rest) = rw first_c at p.parts in
      let pre = sentinel s ∷ p.below in
      let old : All (λ c. c.addr < s.fresh) (pre ++ (c ∷ rest)) = rw parts at v.old in
      let other : c.addr < s.fresh = (All-parts (λ c. c.addr < s.fresh) pre (c ∷ rest) old).1.0 in
      let h' : Heap = store (store h c.addr (some (record n { value = value }))) s.fresh none in
      let same : (a : ℕ) → a ≢ c.addr → a ≢ s.fresh → h' a ≡ s.heap a = λ a ne nf. ground arith in
      let before : s.heap c.addr ≡ some n = ground arith in
      let grown =
        All-weaken (λ c. c.addr < s.fresh) (λ c. c.addr < suc s.fresh) (pre ++ (c ∷ rest))
          (λ c q. omega (arith, q)) old in
      (
        record s { heap = h'; fresh = suc s.fresh },
        ground arith,
        record {
          cells' = p.below ++ (d ∷ rest);
          valid = record {
            positive = v.positive;
            linked =
                Linked-swap c d rest refl refl refl s.heap h' n s.fresh before (ground arith) same
                  pre (rw parts at v.distinct) (Avoids-new s.fresh (pre ++ (c ∷ rest)) old)
                  (rw parts at v.linked);
            sorted = IsSorted-swap c d rest refl refl refl p.below (rw parts at v.sorted);
            heights =
                All-swap c d rest refl refl refl (λ c. c.height < s.max_level) p.below (λ q. q)
                  (rw parts at v.heights);
            distinct = IsDistinct-swap c d rest refl refl refl pre (rw parts at v.distinct);
            old = All-swap c d rest refl refl refl (λ c. c.addr < suc s.fresh) pre (λ q. q) grown;
            counted =
                omega
                  (arith, v.counted, ap length parts, length-swap c d rest refl refl refl p.below);
          };
          content = sym (
              ap (λ c. SortedMap.insert key value (contents c)) parts
              ∙ insert-old key value p.below rest c d same_key refl refl p.less);
          levels = refl;
          grown = omega (arith, low);
        },
      )

  -- What `insert_at` does once it has found where the key belongs.
  abbrev choose : Heap → List ℕ → Ptr → Option SkipList
  choose h update existing = elim existing [
    | none ↦ link level update key value h s
    | some q ↦ do
      n ← h q
      if bytes_eq n.key key then overwrite q n value h s else link level update key value h s
  ]

  choose-here :
      (h : Heap) (update : List ℕ) (c : Cell) (rest : List Cell)
      → Linked lanes h (c ∷ rest)
      → compare_bytes c.key key ≡ Ordering.eq
      → (n : Node) × (h c.addr ≡ some n)
        × (choose h update (first 0 (c ∷ rest)) ≡ overwrite c.addr n value h s)
  choose-here h update c rest (x, l) e =
      let bottom : leb 0 c.height ≡ true = ground arith in
      let equal : bytes_eq x.node.key key ≡ true = ground (arith, x.key) in
      (x.node, x.at, rw (bottom, x.at, equal) refl)

  choose-gone :
      (h : Heap) (update : List ℕ) (above : List Cell)
      → Linked lanes h above
      → Above key above
      → choose h update (first 0 above) ≡ link level update key value h s
  choose-gone h update [] l a = refl
  choose-gone h update (c ∷ rest) (x, l) (lt, a) =
      let bottom : leb 0 c.height ≡ true = ground arith in
      let other : bytes_eq x.node.key key ≡ false =
        ground (arith, x.key, compare_bytes-flip_lt key c.key) in
      rw (bottom, x.at, other) refl

  -- With a level below the maximum, `insert_at` follows no bad pointer, leaves a valid list, and
  -- puts the entry into the map.
  pub insert_at_lem :
      (cells : List Cell)
      → IsValid s cells
      → (s' : SkipList) × (insert_at level key value s ≡ some s') × Inserted key value s cells s'
  unfolding insert_at
  insert_at_lem cells v =
      let p = IsSorted-Split key cells v.sorted in
      let h = (allocated s node).heap in
      let update = updates s.max_level s.head p.below in
      let (down, next, l) =
        descend-Split (allocated s node) cells key (allocated-IsValid s cells node v) p in
      let above : Linked lanes h p.above = (Linked-split h p.below p.above l).1 in
      let searched : insert_at level key value s ≡ choose h update (first 0 p.above) =
        rw (down, next) refl in
      let sorted : IsSorted (p.below ++ p.above) = rw p.parts at v.sorted in
      elim (Found-cases key p.above p.rest (IsSorted-append_right p.below p.above sorted)) [
        | here c rest first_c same_key ↦
            let (n, at, chosen) = choose-here h update c rest (rw first_c at above) same_key in
            let (s', e, x) = overwrite_lem cells v p c rest n first_c same_key at in
            (s', searched ∙ ap (λ a. choose h update (first 0 a)) first_c ∙ chosen ∙ e, x)
        | gone a ↦
            let (s', e, x) = link_lem cells v p a in
            (s', searched ∙ choose-gone h update p.above above a ∙ e, x)
      ]

-- On a valid skip list `insert` follows no bad pointer, leaves a valid list, and puts the entry
-- into the map that the list stands for, whatever the state of the generator is.
pub insert_lem :
    (v : ℕ) (key value : Bytes) (s : SkipList) (cells : List Cell)
    → IsValid s cells
    → (s' : SkipList) × (insert v key value s ≡ some (xorshift v, s'))
      × Inserted key value s cells s'
unfolding insert
insert_lem v key value s cells valid =
    let level = random_level (xorshift v) s.max_level in
    let low : level < s.max_level = random_level-lt (xorshift v) s.max_level valid.positive in
    let (s', e, x) = insert_at_lem s key value level low cells valid in (s', rw e refl, x)
