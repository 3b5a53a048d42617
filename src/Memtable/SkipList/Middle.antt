-- ===== src/Memtable/SkipList/Middle.antt =====
-- A cell in the middle of a list of cells.
use rust_kvdb.Prelude.{List, [], ◌∷◌, ◌++◌, All, ◌≡◌, ◌≢◌, refl, sym, ap, arith, Ordering, inl, inr}
use rust_kvdb.Bytes.{Bytes}
use rust_kvdb.Bytes.Order.{
  compare_bytes, compare_bytes_trans, compare_bytes-flip, compare_bytes-flip_lt,
  compare_bytes_cases,
}
use rust_kvdb.SortedMap
use rust_kvdb.Memtable.SkipList.Cells.{Cell, Below, NotBelow, IsSorted, Avoids, IsDistinct}
use rust_kvdb.Memtable.SkipList.Valid.{contents}

pub All-middle :
    (P : Cell → Type 0) (xs ys : List Cell) (c : Cell)
    → P c
    → All P (xs ++ ys)
    → All P (xs ++ (c ∷ ys))
All-middle P [] ys c p all = (p, all)
All-middle P (x ∷ xs) ys c p (q, all) = (q, All-middle P xs ys c p all)

pub All-weaken :
    (P Q : Cell → Type 0) (xs : List Cell) → ((c : Cell) → P c → Q c) → All P xs → All Q xs
All-weaken P Q [] f all = tt
All-weaken P Q (x ∷ xs) f (p, all) = (f x p, All-weaken P Q xs f all)

-- Each cell's key is above this one.
abbrev pub Above : Bytes → List Cell → Type 0
Above key = All (λ d. compare_bytes key d.key ≡ Ordering.lt)

pub IsSorted-middle :
    (xs ys : List Cell) (c : Cell)
    → All (Below c.key) xs
    → Above c.key ys
    → IsSorted (xs ++ ys)
    → IsSorted (xs ++ (c ∷ ys))
IsSorted-middle [] ys c b a s = (a, s)
IsSorted-middle (x ∷ xs) ys c (bx, b) a (f, s) = (
  All-middle (λ d. compare_bytes x.key d.key ≡ Ordering.lt) xs ys c (ground arith) f,
  IsSorted-middle xs ys c b a s,
)

pub IsDistinct-middle :
    (xs ys : List Cell) (c : Cell)
    → Avoids c.addr (xs ++ ys)
    → IsDistinct (xs ++ ys)
    → IsDistinct (xs ++ (c ∷ ys))
IsDistinct-middle [] ys c av d = (av, d)
IsDistinct-middle (x ∷ xs) ys c (ne, av) (dx, d) =
    (All-middle (λ e. e.addr ≢ x.addr) xs ys c (λ q. ne (sym q)) dx, IsDistinct-middle xs ys c av d)

-- In sorted cells whose first is above a key, all are.
pub Above-first :
    (key : Bytes) (c : Cell) (cs : List Cell)
    → compare_bytes key c.key ≡ Ordering.lt
    → IsSorted (c ∷ cs)
    → Above key (c ∷ cs)
Above-first key c cs lt (f, s) = (
  lt,
  All-weaken (λ d. compare_bytes c.key d.key ≡ Ordering.lt)
      (λ d. compare_bytes key d.key ≡ Ordering.lt) cs
      (λ d q. compare_bytes_trans key c.key d.key lt q) f,
)

-- The cell of a key, if there is one, is the first that is not below it.
pub data Found (key : Bytes) (above : List Cell) : Type 0 where
  here :
      (c : Cell) (rest : List Cell)
      → above ≡ c ∷ rest
      → compare_bytes c.key key ≡ Ordering.eq
      → Found key above
  gone : Above key above → Found key above

pub Found-cases :
    (key : Bytes) (above : List Cell) → All (NotBelow key) above → IsSorted above → Found key above
Found-cases key [] nb s = gone tt
Found-cases key (c ∷ cs) (n, nb) s = elim (compare_bytes_cases c.key key) [
  | inl e ↦ absurd (ground arith)
  | inr (inl e) ↦ here c cs refl e
  | inr (inr e) ↦ gone (Above-first key c cs (compare_bytes-flip c.key key e) s)
]

pub insert-new :
    (key value : Bytes) (below above : List Cell) (c : Cell)
    → c.key ≡ key
    → c.value ≡ value
    → All (Below key) below
    → Above key above
    → SortedMap.insert key value (contents (below ++ above)) ≡ contents (below ++ (c ∷ above))
unfolding SortedMap.insert
insert-new key value [] [] c k w b a = rw (k, w) refl
insert-new key value [] (d ∷ ds) c k w b (x, a) =
    rw (compare_bytes-flip_lt key d.key x, SortedMap.insert, k, w) refl
insert-new key value (x ∷ below) above c k w (bx, b) a =
    let lower : compare_bytes x.key key ≡ Ordering.lt = ground arith in
    rw (lower, SortedMap.insert)
      (ap (◌∷◌ (x.key, x.value)) (insert-new key value below above c k w b a))

pub insert-old :
    (key value : Bytes) (below rest : List Cell) (c d : Cell)
    → compare_bytes c.key key ≡ Ordering.eq
    → d.key ≡ c.key
    → d.value ≡ value
    → All (Below key) below
    → SortedMap.insert key value (contents (below ++ (c ∷ rest))) ≡ contents (below ++ (d ∷ rest))
unfolding SortedMap.insert
insert-old key value [] rest c d e k w b = rw (e, SortedMap.insert, k, w) refl
insert-old key value (x ∷ below) rest c d e k w (bx, b) =
    let lower : compare_bytes x.key key ≡ Ordering.lt = ground arith in
    rw (lower, SortedMap.insert)
      (ap (◌∷◌ (x.key, x.value)) (insert-old key value below rest c d e k w b))
