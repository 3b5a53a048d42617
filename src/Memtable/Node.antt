-- ===== src/Memtable/Node.antt =====
-- The nodes of src/memtable/skiplist.rs, and the heap that they are on.
use rust_kvdb.Prelude.{
  ℕ, ◌+◌, ◌==◌, ltb, if◌then◌else◌, Option, none, some, List, length, get_elem?, set, replicate,
}
use rust_kvdb.Bytes.{Bytes}

-- `none` is a fault.
infixl 5 ◌>>=◌
abbrev pub ◌>>=◌ {ℓ κ} : {A : Type ℓ} {B : Type κ} → Option A → (A → Option B) → Option B
none >>= f = none
some a >>= f = f a

-- `*mut Node`; `none` is null.
abbrev pub Ptr : Type 0
Ptr = Option ℕ

pub record Node : Type 0 where
  pub key : Bytes
  pub value : Bytes
  pub next : List Ptr

-- The nodes that are allocated, by address.
abbrev pub Heap : Type 0
Heap = ℕ → Option Node

abbrev pub store : Heap → ℕ → Option Node → Heap
store h p n a = if a == p then n else h a

-- `Node::next_at`
unfoldable pub next_at : Heap → ℕ → ℕ → Option Ptr
next_at h p level = do n ← h p; get_elem? n.next level

-- `Node::set_next`
unfoldable pub set_next : Heap → ℕ → ℕ → Ptr → Option Heap
set_next h p level target = do
  n ← h p
  if ltb level (length n.next)
      then some (store h p (some (record n { next = set n.next level target })))
      else none

-- `Node::free`
unfoldable pub free : Heap → ℕ → Option Heap
free h p = do n ← h p; some (store h p none)

-- `size_of` of the types, in bytes, on a 64-bit target
abbrev pub size_of_skip_list : ℕ
size_of_skip_list = 24

abbrev pub size_of_pointer : ℕ
size_of_pointer = 8

abbrev pub size_of_node : ℕ
size_of_node = 72

abbrev pub size_of_vec : ℕ
size_of_vec = 24

-- `Node::new`: a node with `level + 1` null pointers
abbrev pub new_node : Bytes → Bytes → ℕ → Node
new_node key value level = record { key = key; value = value; next = replicate (level + 1) none }
