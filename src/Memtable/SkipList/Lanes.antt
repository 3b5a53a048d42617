-- ===== src/Memtable/SkipList/Lanes.antt =====
-- The whole splice loop of `insert`.
use rust_kvdb.Prelude.{
  ℕ, zero, suc, ◌+◌, ◌≤◌, ◌<◌, ◌==◌, leb, ltb, true, false, some, List, [], ◌∷◌, ◌++◌, length,
  length-set, get_elem?, get_elem?-set_self, get_elem?-set_ne, get_elem?-lt, set, All, ◌≡◌, ◌≢◌,
  refl, sym, ◌∙◌, ap, arith, Bool-cases, inl, inr,
}
use native.Mathlib.Decide.{ℕ_discrete}
use rust_kvdb.Memtable.Node.{Ptr, Node, Heap, store, next_at, set_next}
use rust_kvdb.Memtable.SkipList.{splice}
use rust_kvdb.Memtable.SkipList.Cells.{
  Cell, first, last_addr, Holds, Linked, Linked-heap, Linked-join, lanes, lanes_before, Avoids,
  IsDistinct,
}
use rust_kvdb.Memtable.SkipList.Splice.{mixed, last_addr-ne, Linked-mixed}

pred_next :
    (k : ℕ) (c : Cell) (post : List Cell) (h : Heap) (below : List Cell) (a : ℕ) (n : Node)
    → h a ≡ some n
    → get_elem? n.next k ≡ some (first k (below ++ post))
    → Linked (mixed k c post) h below
    → (m : Node) × (h (last_addr k a below) ≡ some m) × (get_elem? m.next k ≡ some (first k post))
pred_next k c post h [] a n at next l = (n, at, next)
pred_next k c post h (d ∷ below) a n at next (x, l) = elim (Bool-cases (leb k d.height)) [
  | inl here ↦
      let step : mixed k c post below k ≡ first k (below ++ post) = ground arith in
      rw here
        (pred_next k c post h below d.addr x.node x.at (x.next k (ground arith) ∙ ap some step) l)
  | inr later ↦ rw later (pred_next k c post h below a n at (rw later at next) l)
]

last_addr-All :
    (P : ℕ → Type 0) (k a : ℕ) (cs : List Cell)
    → P a
    → All (λ d. P d.addr) cs
    → P (last_addr k a cs)
last_addr-All P k a [] p h = p
last_addr-All P k a (d ∷ cs) p (q, h) = elim (Bool-cases (leb k d.height)) [
  | inl here ↦ rw here (last_addr-All P k d.addr cs q h)
  | inr later ↦ rw later (last_addr-All P k a cs p h)
]

-- The heap after the lanes below `k` were spliced.
pub record Spliced (k : ℕ) (c : Cell) (pre post : List Cell) (h : Heap) : Type 0 where
  pub front : Linked (mixed k c post) h pre
  pub back : Linked lanes h post
  pub node : Node
  pub at : h c.addr ≡ some node
  pub key : node.key ≡ c.key
  pub value : node.value ≡ c.value
  pub tall : length node.next ≡ suc c.height
  pub next : (i : ℕ) → i < k → i ≤ c.height → get_elem? node.next i ≡ some (first i post)

-- The entries of `update` from lane `k` on.
abbrev pub preds : ℕ → ℕ → ℕ → List Cell → List ℕ
preds k zero a below = []
preds k (suc n) a below = last_addr k a below ∷ preds (suc k) n a below

All-heap :
    (h h' : Heap) (p q : ℕ) (cs : List Cell)
    → ((a : ℕ) → a ≢ p → a ≢ q → h' a ≡ h a)
    → Avoids p cs
    → Avoids q cs
    → All (λ c. h' c.addr ≡ h c.addr) cs
All-heap h h' p q [] same x y = tt
All-heap h h' p q (c ∷ cs) same (x, xs) (y, ys) = (same c.addr x y, All-heap h h' p q cs same xs ys)

-- Where the sentinel `d` and the cells below the key stand before the others, and the new cell's
-- address is none of theirs.
pub record Apart (c d : Cell) (below post : List Cell) : Type 0 where
  pub reach : c.height ≤ d.height
  pub new_front : Avoids c.addr (d ∷ below)
  pub new_back : Avoids c.addr post
  pub distinct : IsDistinct (d ∷ below)
  pub disjoint : All (λ e. Avoids e.addr post) (d ∷ below)

-- One round of the loop.
splice_run :
    (h : Heap) (p q k : ℕ) (rest : List ℕ) (m node : Node) (t : Ptr)
    → p ≢ q
    → h p ≡ some m
    → h q ≡ some node
    → get_elem? m.next k ≡ some t
    → k < length node.next
    → splice q k (p ∷ rest) h
      ≡ splice q (suc k) rest (
          store
            (store h q (some (record node { next = set node.next k t })))
            p
            (some (record m { next = set m.next k (some q) })))
unfolding splice next_at set_next
splice_run h p q k rest m node t ne at_p at_q next tall =
    let room : ltb k (length node.next) ≡ true = ground arith in
    let long : ltb k (length m.next) ≡ true = ground (arith, get_elem?-lt m.next k next) in
    let self : (q == q) ≡ true = ground arith in
    let other : (p == q) ≡ false = ground arith in
    rw (at_p, next, at_q, room, other, at_p, long) refl

module _ (c d : Cell) (below post : List Cell) (apart : Apart c d below post) where
  abbrev pre : List Cell
  pre = d ∷ below

  splice_step :
      (k : ℕ) (rest : List ℕ) (h : Heap)
      → k ≤ c.height
      → Spliced k c pre post h
      → (h' : Heap) × (splice c.addr k (last_addr k d.addr below ∷ rest) h
          ≡ splice c.addr (suc k) rest h')
        × Spliced (suc k) c pre post h'
  unfolding splice next_at set_next
  splice_step k rest h le s =
      let pred = last_addr k d.addr below in
      let x : Holds h d (mixed k c post below) = s.front.0 in
      let lane : mixed k c post below k ≡ first k (below ++ post) = ground arith in
      let (m, at_m, next_m) =
        pred_next k c post h below d.addr x.node x.at
          (x.next k (omega (arith, apart.reach)) ∙ ap some lane) s.front.1 in
      let other : pred ≢ c.addr =
        last_addr-ne k d.addr c.addr below apart.new_front.1 apart.new_front.0 in
      let away : Avoids pred post =
        last_addr-All (λ p. Avoids p post) k d.addr below apart.disjoint.0 apart.disjoint.1 in
      let node' : Node = record s.node { next = set s.node.next k (first k post) } in
      let m' : Node = record m { next = set m.next k (some c.addr) } in
      let h1 : Heap = store h c.addr (some node') in
      let h2 : Heap = store h1 pred (some m') in
      let same : (p : ℕ) → p ≢ pred → p ≢ c.addr → h2 p ≡ h p = λ p ne1 ne2. ground arith in
      (
        h2,
        splice_run h pred c.addr k rest m s.node (first k post) other at_m s.at next_m
            (omega (arith, s.tall)),
        record {
          front =
              Linked-mixed k c post le h h2 pred m at_m (ground arith) same pre c.addr
                (ground (arith, apart.reach)) apart.new_front apart.new_front apart.distinct
                s.front;
          back =
              Linked-heap (λ es i. first i es) h h2 post
                (All-heap h h2 pred c.addr post same away apart.new_back) s.back;
          node = node';
          at = ground arith;
          key = s.key;
          value = s.value;
          tall = length-set s.node.next k (first k post) ∙ s.tall;
          next = λ i lt lei. elim (ℕ_discrete i k) [
            | yes is_k ↦
                rw is_k (get_elem?-set_self s.node.next k (first k post) (omega (arith, s.tall)))
            | no ne ↦
                get_elem?-set_ne s.node.next k i (first k post) (λ q. ne (sym q))
                ∙ s.next i (omega arith) lei
          ];
        },
      )

  -- The whole loop, from lane `k` to the top of the new cell.
  pub splice_loop :
      (n k : ℕ) (h : Heap)
      → k + n ≡ suc c.height
      → Spliced k c pre post h
      → (h' : Heap) × (splice c.addr k (preds k n d.addr below) h ≡ some h')
        × Spliced (suc c.height) c pre post h'
  unfolding splice
  splice_loop zero k h end s = let q : k ≡ suc c.height = omega (arith, end) in (h, refl, rw q at s)
  splice_loop (suc n) k h end s =
      let (h1, e1, s1) = splice_step k (preds (suc k) n d.addr below) h (omega (arith, end)) s in
      let (h2, e2, s2) = splice_loop n (suc k) h1 (omega (arith, end)) s1 in (h2, e1 ∙ e2, s2)

Holds-same :
    {f g : ℕ → Ptr} (h : Heap) (c : Cell) → ((i : ℕ) → f i ≡ g i) → Holds h c f → Holds h c g
Holds-same h c same x = record {
  node = x.node;
  at = x.at;
  key = x.key;
  value = x.value;
  tall = x.tall;
  next = λ i le. x.next i le ∙ ap some (same i);
}

pub Linked-same :
    (f g : List Cell → ℕ → Ptr) (h : Heap) (cs : List Cell)
    → ((es : List Cell) (i : ℕ) → f es i ≡ g es i)
    → Linked f h cs
    → Linked g h cs
Linked-same f g h [] same l = tt
Linked-same f g h (c ∷ cs) same (x, l) = (Holds-same h c (same cs) x, Linked-same f g h cs same l)

first_above :
    (i : ℕ) (c : Cell) (post es : List Cell)
    → leb i c.height ≡ false
    → first i (es ++ post) ≡ first i (es ++ (c ∷ post))
first_above i c post [] h = rw h refl
first_above i c post (e ∷ es) h = elim (Bool-cases (leb i e.height)) [
  | inl here ↦ rw here refl
  | inr later ↦ rw later (first_above i c post es h)
]

mixed_top :
    (c : Cell) (post es : List Cell) (i : ℕ)
    → mixed (suc c.height) c post es i ≡ lanes_before (c ∷ post) es i
mixed_top c post es i = elim (Bool-cases (leb i c.height)) [
  | inl in_ ↦ ground arith
  | inr out ↦ ground (arith, first_above i c post es)
]

-- Once the loop is through, the new cell is linked in all lanes between the others.
pub Linked-Spliced :
    (c : Cell) (pre post : List Cell) (h : Heap)
    → Spliced (suc c.height) c pre post h
    → Linked lanes h (pre ++ (c ∷ post))
Linked-Spliced c pre post h s =
    Linked-join h pre (c ∷ post)
      (Linked-same (mixed (suc c.height) c post) (lanes_before (c ∷ post)) h pre (mixed_top c post)
        s.front)
      (
        record {
          node = s.node;
          at = s.at;
          key = s.key;
          value = s.value;
          tall = s.tall;
          next = λ i le. s.next i (omega arith) le;
        },
        s.back,
      )
