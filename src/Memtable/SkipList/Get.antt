-- ===== src/Memtable/SkipList/Get.antt =====
-- `get` and the iterators against the map that the list stands for.
use rust_kvdb.Prelude.{
  leb, if◌then◌else◌, true, Option, none, some, List, [], ◌∷◌, ◌++◌, All, ◌≡◌, refl, arith,
}
use rust_kvdb.Bytes.{Bytes}
use rust_kvdb.Bytes.Order.{bytes_eq, compare_bytes-flip}
use rust_kvdb.SortedMap.{lookup}
use rust_kvdb.Memtable.Node.{◌>>=◌, Ptr, Heap}
use rust_kvdb.Memtable.SkipList.{SkipList, get}
use rust_kvdb.Memtable.SkipList.Cells.{
  Cell, first, Linked, lanes, Below, NotBelow, IsSorted, Linked-split,
}
use rust_kvdb.Memtable.SkipList.Valid.{
  IsValid, contents, IsSorted-Split, descend-Split, lookup_above,
}

pub lookup-Below :
    (key : Bytes) (below above : List Cell)
    → All (Below key) below
    → lookup key (contents (below ++ above)) ≡ lookup key (contents above)
unfolding lookup
lookup-Below key [] above h = refl
lookup-Below key (c ∷ below) above (x, h) = ground (arith, lookup-Below key below above h)

pub IsSorted-append_right : (xs ys : List Cell) → IsSorted (xs ++ ys) → IsSorted ys
IsSorted-append_right [] ys s = s
IsSorted-append_right (x ∷ xs) ys (f, s) = IsSorted-append_right xs ys s

-- What `get` makes of the first cell that is not below the key.
abbrev read_candidate : Heap → Bytes → Ptr → Option (Option Bytes)
read_candidate h key candidate = elim candidate [
  | none ↦ some none
  | some q ↦ do n ← h q; if bytes_eq n.key key then some (some n.value) else some none
]

read_candidate-lookup :
    (h : Heap) (key : Bytes) (above : List Cell)
    → Linked lanes h above
    → All (NotBelow key) above
    → IsSorted above
    → read_candidate h key (first 0 above) ≡ some (lookup key (contents above))
unfolding lookup
read_candidate-lookup h key [] l nb s = refl
read_candidate-lookup h key (c ∷ cs) (x, l) (nb, nbs) (f, s) =
    let bottom : leb 0 c.height ≡ true = ground arith in
    rw (bottom, x.at, x.key, x.value)
      (ground (arith, compare_bytes-flip c.key key, lookup_above key c.key cs, nb))

-- On a valid skip list `get` follows no bad pointer, and returns what the map has at the key.
pub get-lookup :
    (s : SkipList) (cells : List Cell) (key : Bytes)
    → IsValid s cells
    → get key s ≡ some (lookup key (contents cells))
unfolding get
get-lookup s cells key v =
    let p = IsSorted-Split key cells v.sorted in
    let (down, next, l) = descend-Split s cells key v p in
    let sorted : IsSorted (p.below ++ p.above) = rw p.parts at v.sorted in
    rw (down, next, p.parts, lookup-Below key p.below p.above p.less)
      (read_candidate-lookup s.heap key p.above (Linked-split s.heap p.below p.above l).1 p.rest
        (IsSorted-append_right p.below p.above sorted))
