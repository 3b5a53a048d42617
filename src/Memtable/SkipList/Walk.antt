-- ===== src/Memtable/SkipList/Walk.antt =====
-- The search of `insert`, `get` and `scan` through the lanes.
use rust_kvdb.Prelude.{
  ℕ, zero, suc, ◌≤◌, ◌<◌, leb, if◌then◌else◌, Option, none, some, List, [], ◌∷◌, ◌++◌, length,
  get_elem?, All, ◌≡◌, refl, ◌∙◌, arith, Bool-cases, Option-cases, inl, inr,
}
use rust_kvdb.Bytes.{Bytes}
use rust_kvdb.Memtable.Node.{Node, Heap, next_at}
use rust_kvdb.Memtable.SkipList.{walk, descend}
use rust_kvdb.Memtable.SkipList.Cells.{
  Cell, first, last_addr, Holds, Linked, lanes, Below, NotBelow, first_cases,
}

module _ (h : Heap) (key : Bytes) (above : List Cell) (stop : All (NotBelow key) above) where
  -- From a node whose lane `i` leads to the cells below the key and then those above it, the walk
  -- ends at the last cell of the lane that is below the key.
  walk-last_addr :
      (fuel i a : ℕ) (n : Node) (below : List Cell)
      → h a ≡ some n
      → get_elem? n.next i ≡ some (first i (below ++ above))
      → Linked lanes h (below ++ above)
      → All (Below key) below
      → length below < fuel
      → walk fuel h a i key ≡ some (last_addr i a below)
  unfolding walk next_at
  walk-last_addr zero i a n below at next l b lt = absurd (omega arith)
  walk-last_addr (suc fuel) i a n [] at next l b lt =
      elim (first_cases h i (NotBelow key) above l stop) [
        | inl none_left ↦ rw (at, next, none_left) refl
        | inr (c, found, node, at_c, key_c, nb) ↦ rw (at, next, found, at_c, key_c, nb) refl
      ]
  walk-last_addr (suc fuel) i a n (c ∷ below) at next (x, l) (b, bs) lt =
      elim (Bool-cases (leb i c.height)) [
        | inl here ↦
            rw (here, at, next, here, x.at, x.key, b)
              (walk-last_addr fuel i c.addr x.node below x.at (x.next i (ground arith)) l bs
                (omega arith))
        | inr later ↦
            rw later
              (walk-last_addr (suc fuel) i a n below at (rw later at next) l bs (omega arith))
      ]

-- The last cell of a lane, with the cells behind it.
unfoldable pub find_last : ℕ → List Cell → Option (Cell × List Cell)
find_last i [] = none
find_last i (c ∷ cs) = elim (find_last i cs) [
  | none ↦ if leb i c.height then some (c, cs) else none
  | some r ↦ some r
]

pub find_last-none : (i a : ℕ) (cs : List Cell) → find_last i cs ≡ none → last_addr i a cs ≡ a
unfolding find_last
find_last-none i a [] e = refl
find_last-none i a (c ∷ cs) e = elim (Option-cases (find_last i cs)) [
  | inl none_behind ↦ elim (Bool-cases (leb i c.height)) [
    | inl here ↦ absurd (ground arith)
    | inr later ↦ rw later (find_last-none i a cs none_behind)
  ]
  | inr (r, found) ↦ absurd (ground arith)
]

-- Where the walk of lane `i` has ended, a walk of a lower lane can go on.
record Located (h : Heap) (i : ℕ) (cs above : List Cell) (P : Cell → Type 0) (w : Cell)
    (suf : List Cell) : Type 0 where
  tall : i ≤ w.height
  here : last_addr i w.addr suf ≡ w.addr
  same : (j a : ℕ) → j ≤ i → last_addr j a cs ≡ last_addr j w.addr suf
  holds : Holds h w (lanes (suf ++ above))
  linked : Linked lanes h (suf ++ above)
  all : All P suf
  shorter : length suf ≤ length cs

locate :
    (h : Heap) (i : ℕ) (cs above : List Cell) (P : Cell → Type 0) (w : Cell) (suf : List Cell)
    → find_last i cs ≡ some (w, suf)
    → Linked lanes h (cs ++ above)
    → All P cs
    → Located h i cs above P w suf
unfolding find_last
locate h i [] above P w suf e l p = cc
locate h i (c ∷ cs) above P w suf e (x, l) (pc, p) = elim (Option-cases (find_last i cs)) [
  | inl none_behind ↦ elim (Bool-cases (leb i c.height)) [
    | inl here ↦
        let is_w : c ≡ w = ground arith in
        let is_suf : cs ≡ suf = ground arith in
        rw (← is_w, ← is_suf)
          (record {
            tall = ground arith;
            here = find_last-none i c.addr cs none_behind;
            same = λ j a le. ground arith;
            holds = x;
            linked = l;
            all = p;
            shorter = omega arith;
          })
    | inr later ↦ absurd (ground arith)
  ]
  | inr (r, found) ↦
      let rest = locate h i cs above P w suf (ground arith) l p in
      record {
        tall = rest.tall;
        here = rest.here;
        same = λ j a le. rest.same j (if leb j c.height then c.addr else a) le;
        holds = rest.holds;
        linked = rest.linked;
        all = rest.all;
        shorter = omega (arith, rest.shorter);
      }
]

-- `update`, lane 0 first
abbrev pub updates : ℕ → ℕ → List Cell → List ℕ
updates zero a below = []
updates (suc i) a below = updates i a below ++ (last_addr i a below ∷ [])

updates-same :
    (m a b : ℕ) (cs ds : List Cell)
    → ((j : ℕ) → j < m → last_addr j a cs ≡ last_addr j b ds)
    → updates m a cs ≡ updates m b ds
updates-same zero a b cs ds h = refl
updates-same (suc m) a b cs ds h =
    rw (updates-same m a b cs ds (λ j lt. h j (omega arith)), h m (omega arith)) refl

module _ (h : Heap) (key : Bytes) (above : List Cell) (stop : All (NotBelow key) above)
    (fuel : ℕ) where
  -- From a node that is in the lanes below `levels`, the descent ends at the last cell below the
  -- key, and notes the last such cell of each lane.
  pub descend-last_addr :
      (levels : ℕ) (a : ℕ) (n : Node) (below : List Cell)
      → h a ≡ some n
      → ((i : ℕ) → i < levels → get_elem? n.next i ≡ some (first i (below ++ above)))
      → Linked lanes h (below ++ above)
      → All (Below key) below
      → length below < fuel
      → 0 < levels
      → descend levels fuel h a key ≡ some (last_addr 0 a below, updates levels a below)
  unfolding descend
  descend-last_addr zero a n below at next l b lt pos = absurd (omega arith)
  descend-last_addr (suc zero) a n below at next l b lt pos =
      rw (walk-last_addr h key above stop fuel 0 a n below at (next 0 (omega arith)) l b lt) refl
  descend-last_addr (suc (suc i)) a n below at next l b lt pos =
      let step =
        walk-last_addr h key above stop fuel (suc i) a n below at (next (suc i) (omega arith)) l b
          lt in
      elim (Option-cases (find_last (suc i) below)) [
        | inl stays ↦
            let same : last_addr (suc i) a below ≡ a = find_last-none (suc i) a below stays in
            rw
              (
                step,
                same,
                descend-last_addr (suc i) a n below at (λ j h. next j (omega arith)) l b lt
                    (omega arith),
              )
              refl
        | inr ((w, suf), found) ↦
            let loc = locate h (suc i) below above (Below key) w suf found l b in
            let ends : last_addr (suc i) a below ≡ w.addr =
              loc.same (suc i) a (omega arith) ∙ loc.here in
            let lower =
              descend-last_addr (suc i) w.addr loc.holds.node suf loc.holds.at
                (λ j lt. loc.holds.next j (omega (arith, loc.tall))) loc.linked loc.all
                (omega (arith, loc.shorter)) (omega arith) in
            let noted : updates (suc i) a below ≡ updates (suc i) w.addr suf =
              updates-same (suc i) a w.addr below suf (λ j lt. loc.same j a (omega arith)) in
            rw (step, ends, lower, noted, loc.same 0 a (omega arith)) refl
      ]
