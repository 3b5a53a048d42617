-- ===== src/Memtable/SkipList/Cells.antt =====
-- What the heap of a skip list holds, as a list of cells in key order. A cell is one node, with
-- the highest lane that it is in.
use rust_kvdb.Prelude.{
  ◌∙◌, ℕ, suc, ◌≤◌, ◌<◌, Option, arith, leb, if◌then◌else◌, true, false, none, some, List, [], ◌∷◌,
  ◌++◌, length, get_elem?, All, ◌≡◌, ◌≢◌, refl, Ordering, Bool-cases, inl, inr, ◌⊎◌,
}
use rust_kvdb.Bytes.{Bytes}
use rust_kvdb.Bytes.Order.{compare_bytes, bytes_lt}
use rust_kvdb.Memtable.Node.{Ptr, Node, Heap, store}

pub record Cell : Type 0 where
  pub addr : ℕ
  pub key : Bytes
  pub value : Bytes
  pub height : ℕ

-- The first cell in lane `i`.
abbrev pub first : ℕ → List Cell → Ptr
first i [] = none
first i (c ∷ cs) = if leb i c.height then some c.addr else first i cs

-- The last cell in lane `i`, or `a` if there is none.
abbrev pub last_addr : ℕ → ℕ → List Cell → ℕ
last_addr i a [] = a
last_addr i a (c ∷ cs) = last_addr i (if leb i c.height then c.addr else a) cs

-- The heap holds the cell's node, with these pointers in its lanes.
pub record Holds (h : Heap) (c : Cell) (links : ℕ → Ptr) : Type 0 where
  pub node : Node
  pub at : h c.addr ≡ some node
  pub key : node.key ≡ c.key
  pub value : node.value ≡ c.value
  pub tall : length node.next ≡ suc c.height
  pub next : (i : ℕ) → i ≤ c.height → get_elem? node.next i ≡ some (links i)

-- Each cell's pointers are given by the cells behind it.
abbrev pub Linked : (List Cell → ℕ → Ptr) → Heap → List Cell → Type 0
Linked links h [] = Unit
Linked links h (c ∷ cs) = Holds h c (links cs) × Linked links h cs

-- In each lane, the next cell of that lane.
abbrev pub lanes : List Cell → ℕ → Ptr
lanes cs i = first i cs

-- The same before more cells.
abbrev pub lanes_before : List Cell → List Cell → ℕ → Ptr
lanes_before post cs i = first i (cs ++ post)

abbrev pub Below : Bytes → Cell → Type 0
Below key c = bytes_lt c.key key ≡ true

abbrev pub NotBelow : Bytes → Cell → Type 0
NotBelow key c = bytes_lt c.key key ≡ false

abbrev pub IsSorted : List Cell → Type 0
IsSorted [] = Unit
IsSorted (c ∷ cs) = All (λ d. compare_bytes c.key d.key ≡ Ordering.lt) cs × IsSorted cs

-- No cell stands at the address.
abbrev pub Avoids : ℕ → List Cell → Type 0
Avoids a = All (λ c. c.addr ≢ a)

abbrev pub IsDistinct : List Cell → Type 0
IsDistinct [] = Unit
IsDistinct (c ∷ cs) = Avoids c.addr cs × IsDistinct cs

pub Linked-split :
    (h : Heap) (pre post : List Cell)
    → Linked lanes h (pre ++ post)
    → Linked (lanes_before post) h pre × Linked lanes h post
Linked-split h [] post l = (tt, l)
Linked-split h (c ∷ pre) post (x, l) = let (p, q) = Linked-split h pre post l in ((x, p), q)

pub Linked-join :
    (h : Heap) (pre post : List Cell)
    → Linked (lanes_before post) h pre
    → Linked lanes h post
    → Linked lanes h (pre ++ post)
Linked-join h [] post l k = k
Linked-join h (c ∷ pre) post (x, l) k = (x, Linked-join h pre post l k)

Holds-heap :
    {links : ℕ → Ptr} (h h' : Heap) (c : Cell)
    → h' c.addr ≡ h c.addr
    → Holds h c links
    → Holds h' c links
Holds-heap h h' c same x = record {
  node = x.node;
  at = same ∙ x.at;
  key = x.key;
  value = x.value;
  tall = x.tall;
  next = x.next;
}

-- A heap that agrees on the cells.
pub Linked-heap :
    (links : List Cell → ℕ → Ptr) (h h' : Heap) (cs : List Cell)
    → All (λ c. h' c.addr ≡ h c.addr) cs
    → Linked links h cs
    → Linked links h' cs
Linked-heap links h h' [] same l = tt
Linked-heap links h h' (c ∷ cs) (s, same) (x, l) =
    (Holds-heap h h' c s x, Linked-heap links h h' cs same l)

-- A lane is at its end, or goes on to a cell.
pub first_cases :
    (h : Heap) (i : ℕ) (P : Cell → Type 0) (cs : List Cell)
    → Linked lanes h cs
    → All P cs
    → (first i cs ≡ none)
      ⊎ ((c : Cell) × (first i cs ≡ some c.addr)
          × (node : Node) × (h c.addr ≡ some node)
          × (node.key ≡ c.key)
          × P c)
first_cases h i P [] l p = inl refl
first_cases h i P (c ∷ cs) (x, l) (pc, p) = elim (Bool-cases (leb i c.height)) [
  | inl here ↦ inr (c, rw here refl, x.node, x.at, x.key, pc)
  | inr later ↦ rw later (first_cases h i P cs l p)
]

pub All-parts : (P : Cell → Type 0) (xs ys : List Cell) → All P (xs ++ ys) → All P xs × All P ys
All-parts P [] ys all = (tt, all)
All-parts P (x ∷ xs) ys (p, all) = let (q, r) = All-parts P xs ys all in ((p, q), r)

pub IsDistinct-parts :
    (xs ys : List Cell) → IsDistinct (xs ++ ys) → IsDistinct xs × All (λ e. Avoids e.addr ys) xs
IsDistinct-parts [] ys d = (tt, tt)
IsDistinct-parts (x ∷ xs) ys (av, d) =
    let (p, q) = All-parts (λ c. c.addr ≢ x.addr) xs ys av in
    let (d1, d2) = IsDistinct-parts xs ys d in ((p, d1), (q, d2))

pub Avoids-new : (n : ℕ) (cs : List Cell) → All (λ c. c.addr < n) cs → Avoids n cs
Avoids-new n [] h = tt
Avoids-new n (c ∷ cs) (lt, h) = (λ e. omega (arith, e), Avoids-new n cs h)

pub store_elsewhere :
    (h : Heap) (p : ℕ) (n : Option Node) (cs : List Cell)
    → Avoids p cs
    → All (λ c. store h p n c.addr ≡ h c.addr) cs
store_elsewhere h p n [] av = tt
store_elsewhere h p n (c ∷ cs) (ne, av) = (ground arith, store_elsewhere h p n cs av)
