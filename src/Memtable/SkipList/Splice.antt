-- ===== src/Memtable/SkipList/Splice.antt =====
-- Linking a new node: the loop of `insert` over the lanes.
use rust_kvdb.Prelude.{
  ℕ, suc, ◌≤◌, leb, ltb, if◌then◌else◌, none, some, List, [], ◌∷◌, ◌++◌, length, length-set,
  get_elem?, get_elem?-set_self, get_elem?-set_ne, set, ◌≡◌, ◌≢◌, refl, sym, ◌∙◌, ap, arith,
  Bool-cases, Option-cases, inl, inr,
}
use native.Mathlib.Decide.{ℕ_discrete}
use rust_kvdb.Memtable.Node.{Ptr, Node, Heap}
use rust_kvdb.Memtable.SkipList.Cells.{Cell, first, last_addr, Holds, Linked, Avoids, IsDistinct}
use rust_kvdb.Memtable.SkipList.Walk.{find_last, find_last-none}

-- The pointers after the lanes below `k` were spliced.
abbrev pub mixed : ℕ → Cell → List Cell → List Cell → ℕ → Ptr
mixed k c post es i = if ltb i k then first i (es ++ (c ∷ post)) else first i (es ++ post)

first_found :
    (k : ℕ) (es xs ys : List Cell) (r : Cell × List Cell)
    → find_last k es ≡ some r
    → first k (es ++ xs) ≡ first k (es ++ ys)
unfolding find_last
first_found k [] xs ys r e = cc
first_found k (d ∷ es) xs ys r e = elim (Bool-cases (leb k d.height)) [
  | inl here ↦ rw here refl
  | inr later ↦ elim (Option-cases (find_last k es)) [
    | inl n ↦ absurd (ground arith)
    | inr (r', e') ↦ rw later (first_found k es xs ys r' e')
  ]
]

first_missing :
    (k : ℕ) (es xs : List Cell) → find_last k es ≡ none → first k (es ++ xs) ≡ first k xs
unfolding find_last
first_missing k [] xs e = refl
first_missing k (d ∷ es) xs e = elim (Option-cases (find_last k es)) [
  | inl n ↦ elim (Bool-cases (leb k d.height)) [
    | inl here ↦ absurd (ground arith)
    | inr later ↦ rw later (first_missing k es xs n)
  ]
  | inr (r, e') ↦ absurd (ground arith)
]

last_addr_found :
    (k a b : ℕ) (es : List Cell) (r : Cell × List Cell)
    → find_last k es ≡ some r
    → last_addr k a es ≡ last_addr k b es
unfolding find_last
last_addr_found k a b [] r e = cc
last_addr_found k a b (d ∷ es) r e = elim (Bool-cases (leb k d.height)) [
  | inl here ↦ rw here refl
  | inr later ↦ elim (Option-cases (find_last k es)) [
    | inl n ↦ absurd (ground arith)
    | inr (r', e') ↦ rw later (last_addr_found k a b es r' e')
  ]
]

pub last_addr-ne : (k b p : ℕ) (es : List Cell) → Avoids p es → b ≢ p → last_addr k b es ≢ p
last_addr-ne k b p [] av ne = ne
last_addr-ne k b p (d ∷ es) (x, av) ne = elim (Bool-cases (leb k d.height)) [
  | inl here ↦ rw here (last_addr-ne k d.addr p es av x)
  | inr later ↦ rw later (last_addr-ne k b p es av ne)
]

mixed_at : (k : ℕ) (c : Cell) (post es : List Cell) → mixed k c post es k ≡ first k (es ++ post)
mixed_at k c post es = ground arith

mixed_next :
    (k : ℕ) (c : Cell) (post es : List Cell)
    → mixed (suc k) c post es k ≡ first k (es ++ (c ∷ post))
mixed_next k c post es = ground arith

mixed_ne :
    (k : ℕ) (c : Cell) (post es : List Cell) (i : ℕ)
    → i ≢ k
    → mixed k c post es i ≡ mixed (suc k) c post es i
mixed_ne k c post es i ne = ground arith

-- One lane more: `pred` is the last cell of lane `k`, and its pointer there is the new cell.
module _ (k : ℕ) (c : Cell) (post : List Cell) (reach : k ≤ c.height) (h h' : Heap) (pred : ℕ)
    (n : Node) (old : h pred ≡ some n)
    (changed : h' pred ≡ some (record n { next = set n.next k (some c.addr) }))
    (same : (p : ℕ) → p ≢ pred → p ≢ c.addr → h' p ≡ h p) where
  -- A cell that is not the predecessor keeps its node.
  Holds-other :
      (e : Cell) (es : List Cell)
      → e.addr ≢ pred
      → e.addr ≢ c.addr
      → (k ≤ e.height → first k (es ++ post) ≡ first k (es ++ (c ∷ post)))
      → Holds h e (mixed k c post es)
      → Holds h' e (mixed (suc k) c post es)
  Holds-other e es ne1 ne2 lane x = record {
    node = x.node;
    at = same e.addr ne1 ne2 ∙ x.at;
    key = x.key;
    value = x.value;
    tall = x.tall;
    next = λ i le. elim (ℕ_discrete i k) [
      | yes eq ↦
          x.next i le
          ∙ rw eq
              (ap some (mixed_at k c post es ∙ lane (omega arith) ∙ sym (mixed_next k c post es)))
      | no ne ↦ x.next i le ∙ ap some (mixed_ne k c post es i ne)
    ];
  }

  Holds-pred :
      (e : Cell) (es : List Cell)
      → e.addr ≡ pred
      → find_last k es ≡ none
      → k ≤ e.height
      → Holds h e (mixed k c post es)
      → Holds h' e (mixed (suc k) c post es)
  Holds-pred e es eq behind le x =
      let is_n : x.node ≡ n = cc (old, x.at, ap h eq) in
      let tall : length n.next ≡ suc e.height = rw (← is_n) x.tall in
      let end : first k (es ++ (c ∷ post)) ≡ some c.addr =
        first_missing k es (c ∷ post) behind ∙ ground arith in
      record {
        node = record n { next = set n.next k (some c.addr) };
        at = ap h' eq ∙ changed;
        key = rw (← is_n) x.key;
        value = rw (← is_n) x.value;
        tall = length-set n.next k (some c.addr) ∙ tall;
        next = λ i lei. elim (ℕ_discrete i k) [
          | yes is_k ↦ rw is_k (
              get_elem?-set_self n.next k (some c.addr) (omega arith)
              ∙ ap some (sym (mixed_next k c post es ∙ end)))
          | no ne ↦
              get_elem?-set_ne n.next k i (some c.addr) (λ q. ne (sym q))
              ∙ ap (λ (m : Node). get_elem? m.next i) (sym is_n)
              ∙ x.next i lei
              ∙ ap some (mixed_ne k c post es i ne)
        ];
      }

  -- The cells of a list whose last cell in the lane is the predecessor.
  pub Linked-mixed :
      (es : List Cell) (a : ℕ)
      → last_addr k a es ≡ pred
      → Avoids a es
      → Avoids c.addr es
      → IsDistinct es
      → Linked (mixed k c post) h es
      → Linked (mixed (suc k) c post) h' es
  Linked-mixed [] a is_pred av avc d l = tt
  Linked-mixed (e ∷ es) a is_pred (ne, av) (nec, avc) (de, d) (x, l) =
      elim (Bool-cases (leb k e.height)) [
        | inl here ↦
            let from_e : last_addr k e.addr es ≡ pred = rw here at is_pred in
            let rest = Linked-mixed es e.addr from_e de avc d l in
            elim (Option-cases (find_last k es)) [
              | inl last ↦ (
                Holds-pred e es (sym (find_last-none k e.addr es last) ∙ from_e) last (ground arith)
                    x,
                rest,
              )
              | inr (r, found) ↦
                  let other : pred ≢ e.addr = λ q.
                    last_addr-ne k a e.addr es de (λ z. ne (sym z))
                      (last_addr_found k a e.addr es r found ∙ from_e ∙ q) in
                  (
                    Holds-other e es (λ q. other (sym q)) nec
                        (λ le. first_found k es post (c ∷ post) r found) x,
                    rest,
                  )
            ]
        | inr later ↦
            let from_a : last_addr k a es ≡ pred = rw later at is_pred in
            let other : pred ≢ e.addr =
              λ q. last_addr-ne k a e.addr es de (λ z. ne (sym z)) (from_a ∙ q) in
            (
              Holds-other e es (λ q. other (sym q)) nec (λ le. absurd (ground arith)) x,
              Linked-mixed es a from_a av avc d l,
            )
      ]
