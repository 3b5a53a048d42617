-- ===== src/Memtable/SkipList.antt =====
-- src/memtable/skiplist.rs: the skip list, with its raw pointers on an explicit heap. `none` is a
-- fault: a null or dangling pointer that is followed, or a lane index out of range.
pub mod Level
pub mod Cells
pub mod Walk
pub mod Valid
pub mod Get
pub mod Splice
pub mod Scan
pub mod Lanes
pub mod Link
pub mod Middle
pub mod Overwrite
pub mod Insert
pub mod Drop
pub mod New
use Prim.Native.Nat.{bit_or, bit_xor, min}
use rust_kvdb.Prelude.{
  ℕ, zero, suc, ◌+◌, ◌-◌, ◌*◌, ◌/◌, ◌%◌, ◌^◌, ◌==◌, ltb, leb, if◌then◌else◌, not, Bool, true, false,
  ◌&&◌, Option, none, some, List, [], ◌∷◌, ◌++◌, length, get_elem?, set, take, replicate,
}
use rust_kvdb.Bytes.{Bytes}
use rust_kvdb.Memtable.Node.{
  ◌>>=◌, Ptr, Node, Heap, store, next_at, set_next, free, size_of_skip_list, size_of_pointer,
  size_of_node, size_of_vec, new_node,
}
use rust_kvdb.Bytes.Order.{bytes_lt, bytes_eq, compare_bytes}

-- `fresh` is the address that the next allocation returns.
pub record SkipList : Type 0 where
  pub heap : Heap
  pub fresh : ℕ
  pub head : ℕ
  pub max_level : ℕ
  pub size : ℕ

-- `SkipList::new`; `none` is the failed assertion.
unfoldable pub new : ℕ → Option SkipList
new max_level =
    if ltb 0 max_level
    then some (record {
      heap = store (λ a. none) 0 (some (new_node [] [] (max_level - 1)));
      fresh = 1;
      head = 0;
      max_level = max_level;
      size = size_of_skip_list;
    })
    else none

-- `while !next.is_null() && next.key < key { current = next }` on one lane
unfoldable pub walk : ℕ → Heap → ℕ → ℕ → Bytes → Option ℕ
unfolding next_at
walk zero h current i key = none
walk (suc fuel) h current i key = do
  p ← next_at h current i
  elim p [
    | none ↦ some current
    | some q ↦ do
      n ← h q
      let more = walk fuel h q i key
      if bytes_lt n.key key then more else some current
  ]

-- `for i in (0..levels).rev()`: where the walk ends, and `update`, lane 0 first. No lane holds
-- more nodes than were allocated, so that is enough fuel.
unfoldable pub descend : ℕ → ℕ → Heap → ℕ → Bytes → Option (ℕ × List ℕ)
unfolding walk
descend zero fuel h current key = some (current, [])
descend (suc i) fuel h current key = do
  current' ← walk fuel h current i key
  (last, update) ← descend i fuel h current' key
  some (last, update ++ (current' ∷ []))

-- The xorshift64 step of `random_level`, on the thread's state.
unfoldable pub xorshift : ℕ → ℕ
xorshift v0 =
    let v1 = bit_xor v0 (v0 * 2 ^ 13 % 2 ^ 64) in
    let v2 = bit_xor v1 (v1 / 2 ^ 7) in bit_xor v2 (v2 * 2 ^ 17 % 2 ^ 64)

-- `trailing_zeros` of a word with this many bits left
unfoldable pub trailing_zeros : ℕ → ℕ → ℕ
trailing_zeros zero v = 0
trailing_zeros (suc bits) v =
    let rest = trailing_zeros bits (v / 2) in if v % 2 == 1 then 0 else suc rest

-- `random_level`, from the state after its step
unfoldable pub random_level : ℕ → ℕ → ℕ
unfolding trailing_zeros
random_level v max_level = min (trailing_zeros 64 (bit_or v 1)) (max_level - 1)

-- `for (i, pred) in update.iter().enumerate().take(level + 1)`, from lane `i` on.
unfoldable pub splice : ℕ → ℕ → List ℕ → Heap → Option Heap
unfolding next_at set_next
splice new i [] h = some h
splice new i (pred ∷ preds) h = do
  p ← next_at h pred i
  h1 ← set_next h new i p
  h2 ← set_next h1 pred i (some new)
  splice new (suc i) preds h2

-- The end of `insert` for a new key: the node goes into its lanes, and the size grows.
unfoldable pub link : ℕ → List ℕ → Bytes → Bytes → Heap → SkipList → Option SkipList
unfolding splice
link level update key value h s = do
  h' ← splice s.fresh 0 (take (level + 1) update) h
  some (record s {
    heap = h';
    fresh = suc s.fresh;
    size =
        s.size
        + (length key
            + length value
            + (level + 1) * size_of_pointer
            + size_of_node
            + 2 * size_of_vec);
  })

-- The end of `insert` for a key that is there: its value is overwritten, and the new node freed.
unfoldable pub overwrite : ℕ → Node → Bytes → Heap → SkipList → Option SkipList
unfolding free
overwrite q n value h s = do
  h' ← free (store h q (some (record n { value = value }))) s.fresh
  some (record s { heap = h'; fresh = suc s.fresh })

-- `insert`, once the level is drawn
unfoldable pub insert_at : ℕ → Bytes → Bytes → SkipList → Option SkipList
unfolding next_at descend
insert_at level key value s =
    let h = store s.heap s.fresh (some (new_node key value level)) in
    do
      (current, update) ← descend s.max_level s.fresh h s.head key
      existing ← next_at h current 0
      elim existing [
        | none ↦ link level update key value h s
        | some q ↦ do
          n ← h q
          if bytes_eq n.key key then overwrite q n value h s else link level update key value h s
      ]

-- `insert`, with the state of the thread's generator before and after
unfoldable pub insert : ℕ → Bytes → Bytes → SkipList → Option (ℕ × SkipList)
unfolding random_level xorshift insert_at
insert v key value s =
    let v' = xorshift v in
    do s' ← insert_at (random_level v' s.max_level) key value s; some (v', s')

unfoldable pub get : Bytes → SkipList → Option (Option Bytes)
unfolding next_at descend
get key s = do
  (current, _) ← descend s.max_level s.fresh s.heap s.head key
  candidate ← next_at s.heap current 0
  elim candidate [
    | none ↦ some none
    | some q ↦ do n ← s.heap q; if bytes_eq n.key key then some (some n.value) else some none
  ]

-- All that the `FullIterator` yields from a pointer on.
unfoldable pub full_iterator : ℕ → Heap → Ptr → Option (List (Bytes × Bytes))
unfolding next_at
full_iterator zero h current = none
full_iterator (suc fuel) h none = some []
full_iterator (suc fuel) h (some q) = do
  n ← h q
  p ← next_at h q 0
  rest ← full_iterator fuel h p
  some ((n.key, n.value) ∷ rest)

-- `iter().collect()`
unfoldable pub iter : SkipList → Option (List (Bytes × Bytes))
unfolding full_iterator next_at
iter s = do start ← next_at s.heap s.head 0; full_iterator s.fresh s.heap start

-- All that the `ScanIterator` yields: it stops at the first key that is not below `end`.
unfoldable pub scan_iterator : ℕ → Heap → Bytes → Ptr → Option (List (Bytes × Bytes))
unfolding next_at
scan_iterator zero h end current = none
scan_iterator (suc fuel) h end none = some []
scan_iterator (suc fuel) h end (some q) = do
  n ← h q
  let more = (do
    p ← next_at h q 0
    rest ← scan_iterator fuel h end p
    some ((n.key, n.value) ∷ rest))
  if bytes_lt n.key end then more else some []

-- `scan(start, end).collect()`
unfoldable pub scan : Bytes → Bytes → SkipList → Option (List (Bytes × Bytes))
unfolding scan_iterator next_at descend
scan start end s = do
  (current, _) ← descend s.max_level s.fresh s.heap s.head start
  first ← next_at s.heap current 0
  scan_iterator s.fresh s.heap end first

-- `drop`: the heap behind it. Each node is freed once, after its successor was read.
unfoldable pub drop_loop : ℕ → Heap → Ptr → Option Heap
unfolding next_at free
drop_loop zero h current = none
drop_loop (suc fuel) h none = some h
drop_loop (suc fuel) h (some q) = do p ← next_at h q 0; h' ← free h q; drop_loop fuel h' p

unfoldable pub drop : SkipList → Option Heap
unfolding drop_loop next_at free
drop s = do current ← next_at s.heap s.head 0; h ← free s.heap s.head; drop_loop s.fresh h current
