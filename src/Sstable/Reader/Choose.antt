-- ===== src/Sstable/Reader/Choose.antt =====
-- The block of an SSTable in which a key is looked up.
use rust_kvdb.Prelude.{
  ◌<◌, List, [], ◌∷◌, ◌++◌, length, map, All, All-left, All-append, ◌≡◌, ap, ◌∙◌, arith, ◌⊎◌,
  Ordering, inl, inr,
}
use rust_kvdb.Bytes.{Bytes}
use rust_kvdb.Bytes.Order.{
  compare_bytes, compare_bytes_trans, compare_bytes-flip, compare_bytes-flip_lt,
}
use rust_kvdb.SortedMap.{Entries, lookup, IsSorted}
use rust_kvdb.Sstable.Block.{Entry}
use rust_kvdb.Sstable.Builder.Layout.{last_of, all_entries, all_entries-append}
use rust_kvdb.Sstable.Reader.Lookup.{Below, Above, lookup-Below, lookup-Above_append, IsSortedKeys}

-- A property of all keys holds of the last one.
last-All :
    (P : Bytes → Type 0) (es : List Entry) → 0 < length es → All (λ e. P e.0) es → P (last_of es)
last-All P [] h a = absurd (omega arith)
last-All P (e ∷ []) h (p, a) = p
last-All P (e ∷ f ∷ es) h (p, a) = last-All P (f ∷ es) (omega arith) a

pub lasts-All :
    (P : Bytes → Type 0) (blocks : List (List Entry))
    → All (λ es. 0 < length es) blocks
    → All (λ e. P e.0) (all_entries blocks)
    → All P (map last_of blocks)
lasts-All P [] full a = tt
lasts-All P (es ∷ blocks) (f, full) a =
    let (here, later) = All-left (λ e. P e.0) es (all_entries blocks) a in
    (last-All P es f here, lasts-All P blocks full later)

-- The parts of sorted entries.
IsSorted-split :
    (xs ys : Entries)
    → IsSorted (xs ++ ys)
    → IsSorted xs × IsSorted ys × All (λ x. All (λ y. compare_bytes x.0 y.0 ≡ Ordering.lt) ys) xs
IsSorted-split [] ys s = (tt, s, tt)
IsSorted-split (x ∷ xs) ys (below, s) =
    let (l, r, cross) = IsSorted-split xs ys s in
    let (here, later) = All-left (λ y. compare_bytes x.0 y.0 ≡ Ordering.lt) xs ys below in
    ((here, l), r, (later, cross))

-- Entries whose last key is below a key are all below it.
Below-last_of :
    (key : Bytes) (es : List Entry)
    → IsSorted es
    → compare_bytes (last_of es) key ≡ Ordering.lt
    → Below key es
Below-last_of key [] s lt = tt
Below-last_of key (e ∷ []) s lt = (lt, tt)
Below-last_of key (e ∷ f ∷ es) (below, s) lt =
    let first = last-All (λ k. compare_bytes e.0 k ≡ Ordering.lt) (f ∷ es) (omega arith) below in
    (compare_bytes_trans e.0 (last_of (f ∷ es)) key first lt, Below-last_of key (f ∷ es) s lt)

-- Entries above a key that is not below another one are above that one.
Above-trans :
    (last key : Bytes) (ys : Entries)
    → (last ≡ key) ⊎ (compare_bytes last key ≡ Ordering.gt)
    → All (λ y. compare_bytes last y.0 ≡ Ordering.lt) ys
    → Above key ys
Above-trans last key [] h a = tt
Above-trans last key (y ∷ ys) (inl e) (lt, a) =
    let lt' : compare_bytes key y.0 ≡ Ordering.lt = rw e at lt in
    (compare_bytes-flip_lt key y.0 lt', Above-trans last key ys (inl e) a)
Above-trans last key (y ∷ ys) (inr g) (lt, a) =
    let lt' = compare_bytes_trans key last y.0 (compare_bytes-flip last key g) lt in
    (compare_bytes-flip_lt key y.0 lt', Above-trans last key ys (inr g) a)

-- The entries of blocks whose last keys are below a key.
pub Below-blocks :
    (key : Bytes) (blocks : List (List Entry))
    → IsSorted (all_entries blocks)
    → All (λ k. compare_bytes k key ≡ Ordering.lt) (map last_of blocks)
    → Below key (all_entries blocks)
Below-blocks key [] s a = tt
Below-blocks key (es ∷ blocks) s (lt, a) =
    let (here, later, cross) = IsSorted-split es (all_entries blocks) s in
    All-append (λ e. compare_bytes e.0 key ≡ Ordering.lt) es (all_entries blocks)
      (Below-last_of key es here lt) (Below-blocks key blocks later a)

-- Where the blocks before one end below the key, and that one does not, the lookup is in that one.
pub lookup-block :
    (key : Bytes) (pre post : List (List Entry)) (es : List Entry)
    → IsSorted (all_entries (pre ++ (es ∷ post)))
    → 0 < length es
    → All (λ k. compare_bytes k key ≡ Ordering.lt) (map last_of pre)
    → (last_of es ≡ key) ⊎ (compare_bytes (last_of es) key ≡ Ordering.gt)
    → IsSorted es × (lookup key (all_entries (pre ++ (es ∷ post))) ≡ lookup key es)
lookup-block key pre post es s full below last =
    let parts = all_entries-append pre (es ∷ post) in
    let s' : IsSorted (all_entries pre ++ (es ++ all_entries post)) = rw parts at s in
    let (front, back, _) = IsSorted-split (all_entries pre) (es ++ all_entries post) s' in
    let (block, _, cross) = IsSorted-split es (all_entries post) back in
    let above = Above-trans (last_of es) key (all_entries post) last (
      last-All (λ k. All (λ y. compare_bytes k y.0 ≡ Ordering.lt) (all_entries post)) es full
        cross) in
    (
      block,
      ap (lookup key) parts
          ∙ lookup-Below key (all_entries pre) (es ++ all_entries post)
              (Below-blocks key pre front below)
          ∙ lookup-Above_append key es (all_entries post) above,
    )

-- The last keys of blocks that are not empty are sorted.
pub map-IsSortedKeys :
    (blocks : List (List Entry))
    → IsSorted (all_entries blocks)
    → All (λ es. 0 < length es) blocks
    → IsSortedKeys (map last_of blocks)
map-IsSortedKeys [] s full = tt
map-IsSortedKeys (es ∷ blocks) s (f, full) =
    let (_, later, cross) = IsSorted-split es (all_entries blocks) s in
    let above =
      last-All (λ k. All (λ y. compare_bytes k y.0 ≡ Ordering.lt) (all_entries blocks)) es f
        cross in
    (
      lasts-All (λ k. compare_bytes (last_of es) k ≡ Ordering.lt) blocks full above,
      map-IsSortedKeys blocks later full,
    )
