-- ===== src/Memtable/SkipList/Overwrite.antt =====
-- Overwriting a value in a valid list.
use rust_kvdb.Prelude.{
  ℕ, leb, if◌then◌else◌, some, List, [], ◌∷◌, ◌++◌, length, length-append, All, ◌≡◌, ◌≢◌, refl, sym,
  ◌∙◌, ap, arith, Ordering, get_elem?,
}
use rust_kvdb.Bytes.Order.{compare_bytes}
use rust_kvdb.Memtable.Node.{Ptr, Node, Heap}
use rust_kvdb.Memtable.SkipList.Cells.{
  Cell, first, Holds, Linked, lanes, Avoids, IsSorted, IsDistinct,
}

module _ (c d : Cell) (rest : List Cell) (addr : d.addr ≡ c.addr) (key : d.key ≡ c.key)
    (height : d.height ≡ c.height) where
  first-swap : (i : ℕ) (xs : List Cell) → first i (xs ++ (c ∷ rest)) ≡ first i (xs ++ (d ∷ rest))
  first-swap i [] = rw (addr, height) refl
  first-swap i (x ∷ xs) =
      ap (λ (p : Ptr). if leb i x.height then some x.addr else p) (first-swap i xs)

  -- What holds of each cell and depends on its address, key and height only.
  pub All-swap :
      (P : Cell → Type 0) (xs : List Cell)
      → (P c → P d)
      → All P (xs ++ (c ∷ rest))
      → All P (xs ++ (d ∷ rest))
  All-swap P [] f (p, all) = (f p, all)
  All-swap P (x ∷ xs) f (p, all) = (p, All-swap P xs f all)

  pub IsSorted-swap : (xs : List Cell) → IsSorted (xs ++ (c ∷ rest)) → IsSorted (xs ++ (d ∷ rest))
  IsSorted-swap [] (f, s) = (rw key f, s)
  IsSorted-swap (x ∷ xs) (f, s) = (
    All-swap (λ e. compare_bytes x.key e.key ≡ Ordering.lt) xs (λ p. rw key p) f,
    IsSorted-swap xs s,
  )

  pub IsDistinct-swap :
      (xs : List Cell) → IsDistinct (xs ++ (c ∷ rest)) → IsDistinct (xs ++ (d ∷ rest))
  IsDistinct-swap [] (f, s) = (rw addr f, s)
  IsDistinct-swap (x ∷ xs) (f, s) =
      (All-swap (λ e. e.addr ≢ x.addr) xs (λ p. rw addr p) f, IsDistinct-swap xs s)

  pub length-swap : (xs : List Cell) → length (xs ++ (d ∷ rest)) ≡ length (xs ++ (c ∷ rest))
  length-swap xs = omega (arith, length-append xs (d ∷ rest), length-append xs (c ∷ rest))

  -- The heap has the new cell at its address, and is as it was at the others but `q`.
  module _ (h h' : Heap) (n : Node) (q : ℕ) (at : h c.addr ≡ some n)
      (now : h' c.addr ≡ some (record n { value = d.value }))
      (same : (a : ℕ) → a ≢ c.addr → a ≢ q → h' a ≡ h a) where
    Holds-kept :
        (x : Cell) (f g : ℕ → Ptr)
        → x.addr ≢ c.addr
        → x.addr ≢ q
        → ((i : ℕ) → f i ≡ g i)
        → Holds h x f
        → Holds h' x g
    Holds-kept x f g ne nq e y = record {
      node = y.node;
      at = same x.addr ne nq ∙ y.at;
      key = y.key;
      value = y.value;
      tall = y.tall;
      next = λ i le. y.next i le ∙ ap some (e i);
    }

    Linked-kept :
        (xs : List Cell) → Avoids c.addr xs → Avoids q xs → Linked lanes h xs → Linked lanes h' xs
    Linked-kept [] av aq l = tt
    Linked-kept (x ∷ xs) (ne, av) (nq, aq) (y, l) =
        (Holds-kept x (lanes xs) (lanes xs) ne nq (λ i. refl) y, Linked-kept xs av aq l)

    Holds-swap : Holds h c (lanes rest) → Holds h' d (lanes rest)
    Holds-swap y =
        let is_n : y.node ≡ n = cc (y.at, at) in
        record {
          node = record n { value = d.value };
          at = rw addr now;
          key = rw (key, ← is_n) y.key;
          value = refl;
          tall = rw (height, ← is_n) y.tall;
          next = λ i le.
              ap (λ (m : Node). get_elem? m.next i) (sym is_n) ∙ y.next i (omega (arith, height));
        }

    pub Linked-swap :
        (xs : List Cell)
        → IsDistinct (xs ++ (c ∷ rest))
        → Avoids q (xs ++ (c ∷ rest))
        → Linked lanes h (xs ++ (c ∷ rest))
        → Linked lanes h' (xs ++ (d ∷ rest))
    Linked-swap [] (av, s) (nq, aq) (y, l) = (Holds-swap y, Linked-kept rest av aq l)
    Linked-swap (x ∷ xs) (av, s) (nq, aq) (y, l) = (
      Holds-kept x (lanes (xs ++ (c ∷ rest))) (lanes (xs ++ (d ∷ rest))) (middle_ne x xs av) nq
          (λ i. first-swap i xs) y,
      Linked-swap xs s aq l,
    )
      where
        middle_ne : (x : Cell) (xs : List Cell) → Avoids x.addr (xs ++ (c ∷ rest)) → x.addr ≢ c.addr
        middle_ne x [] (ne, av) = λ q. ne (sym q)
        middle_ne x (y ∷ ys) (ne, av) = middle_ne x ys av
