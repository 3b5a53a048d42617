-- ===== src/Manifest/Levels.antt =====
-- The lists of tables by level.
use rust_kvdb.Prelude.{
  ℕ, zero, suc, ◌+◌, ◌-◌, ◌≤◌, ◌<◌, ◌==◌, ltb, if◌then◌else◌, true, false, List, [], ◌∷◌, ◌++◌,
  length, get_elem?, set, length-append, All, ◌⊎◌, inl, inr, Bool-cases, arith, ◌≡◌, ◌≢◌, refl, ap,
}
use mathlib.Core.Option.{get_or}
use rust_kvdb.Manifest.{
  SstMeta, Manifest, ssts_at_level, grow, add_sst, retain_other, remove_loop, remove_sst,
}

abbrev at : List (List SstMeta) → ℕ → List SstMeta
at levels j = get_or (get_elem? levels j) []

at-snoc : (levels : List (List SstMeta)) (j : ℕ) → at (levels ++ ([] ∷ [])) j ≡ at levels j
at-snoc [] zero = refl
at-snoc [] (suc j) = refl
at-snoc (l ∷ levels) zero = refl
at-snoc (l ∷ levels) (suc j) = at-snoc levels j

at-grow : (n : ℕ) (levels : List (List SstMeta)) (j : ℕ) → at (grow n levels) j ≡ at levels j
unfolding grow
at-grow zero levels j = refl
at-grow (suc n) levels j = rw (at-grow n (levels ++ ([] ∷ [])) j) (at-snoc levels j)

length-grow : (n : ℕ) (levels : List (List SstMeta)) → length (grow n levels) ≡ length levels + n
unfolding grow
length-grow zero levels = omega arith
length-grow (suc n) levels =
    omega (arith, length-grow n (levels ++ ([] ∷ [])), length-append levels ([] ∷ []))

at-set :
    (levels : List (List SstMeta)) (i j : ℕ) (l : List SstMeta)
    → i < length levels
    → at (set levels i l) j ≡ (if i == j then l else at levels j)
at-set [] i j l h = absurd (omega arith)
at-set (x ∷ levels) zero zero l h = refl
at-set (x ∷ levels) zero (suc j) l h = ground arith
at-set (x ∷ levels) (suc i) zero l h = ground arith
at-set (x ∷ levels) (suc i) (suc j) l h = ground (arith, at-set levels i j l)

-- Adding a table puts it behind the tables of its level, creates the levels up to it, and leaves
-- every other level as it was.
pub ssts_at_level-add_sst :
    (level : ℕ) (meta : SstMeta) (m : Manifest) (j : ℕ)
    → ssts_at_level (add_sst level meta m) j
      ≡ (if level == j then ssts_at_level m level ++ (meta ∷ []) else ssts_at_level m j)
unfolding ssts_at_level add_sst
ssts_at_level-add_sst level meta m j =
    let n = suc level - length m.levels in
    let levels = grow n m.levels in
    ground (
      arith,
      at-set levels level j (at levels level ++ (meta ∷ [])),
      length-grow n m.levels,
      at-grow n m.levels j,
      at-grow n m.levels level,
    )

-- No table of the list has this id.
abbrev pub Lacks : ℕ → List SstMeta → Type 0
Lacks id = All (λ m. m.id ≢ id)

retain_other-le : (id : ℕ) (l : List SstMeta) → length (retain_other id l) ≤ length l
unfolding retain_other
retain_other-le id [] = omega arith
retain_other-le id (m ∷ l) = ground (arith, retain_other-le id l)

-- The second list is the first one without the tables of this id: the others, in their order.
pub data Without (id : ℕ) : List SstMeta → List SstMeta → Type 0 where
  no_more : Without id [] []
  removed :
      (m : SstMeta) (l l' : List SstMeta) → m.id ≡ id → Without id l l' → Without id (m ∷ l) l'
  stays :
      (m : SstMeta) (l l' : List SstMeta)
      → m.id ≢ id
      → Without id l l'
      → Without id (m ∷ l) (m ∷ l')

retain_other-Without : (id : ℕ) (l : List SstMeta) → Without id l (retain_other id l)
unfolding retain_other
retain_other-Without id [] = no_more
retain_other-Without id (m ∷ l) = elim (Bool-cases (m.id == id)) [
  | inl same ↦ rw same (removed m l (retain_other id l) (ground arith) (retain_other-Without id l))
  | inr other ↦
      rw other (stays m l (retain_other id l) (λ e. ground arith) (retain_other-Without id l))
]

-- A list that keeps its length has kept everything.
retain_other_all :
    (id : ℕ) (l : List SstMeta)
    → length l ≤ length (retain_other id l)
    → (retain_other id l ≡ l) × Lacks id l
unfolding retain_other
retain_other_all id [] h = (refl, tt)
retain_other_all id (m ∷ l) h = elim (Bool-cases (m.id == id)) [
  | inl same ↦ absurd (ground (arith, retain_other-le id l))
  | inr other ↦
      let (kept, lacks) = retain_other_all id l (ground arith) in
      (rw other (ap (◌∷◌ m) kept), (λ e. ground arith, lacks))
]

-- What one pass over the levels does.
abbrev Removed : ℕ → List (List SstMeta) → Type 0
Removed id levels =
    ((remove_loop id levels ≡ (levels, false)) × All (Lacks id) levels)
    ⊎ ((before : List (List SstMeta)) × (l : List SstMeta) × (behind : List (List SstMeta))
        × (levels ≡ before ++ (l ∷ behind))
        × All (Lacks id) before
        × (length (retain_other id l) < length l)
        × (remove_loop id levels ≡ (before ++ (retain_other id l ∷ behind), true)))

remove_loop_lem : (id : ℕ) (levels : List (List SstMeta)) → Removed id levels
unfolding remove_loop
remove_loop_lem id [] = inl (refl, tt)
remove_loop_lem id (l ∷ levels) = elim (Bool-cases (ltb (length (retain_other id l)) (length l))) [
  | inl found ↦ inr ([], l, levels, refl, tt, ground arith, rw found)
  | inr kept ↦
      let (same, lacks) = retain_other_all id l (ground arith) in
      elim (remove_loop_lem id levels) [
        | inl (e, all) ↦ inl (rw (kept, e, same), (lacks, all))
        | inr (before, x, behind, split, none_before, fewer, e) ↦ inr (
          l ∷ before,
          x,
          behind,
          ap (◌∷◌ l) split,
          (lacks, none_before),
          fewer,
          rw (kept, e, same),
        )
      ]
]

-- What `remove_sst` returns: no table has the id and the manifest is unchanged, or the first
-- level that holds the id loses its tables, and the levels behind it stay as they are.
abbrev pub Removal : ℕ → Manifest → Type 0
Removal id m =
    ((remove_sst id m ≡ (m, false)) × All (Lacks id) m.levels)
    ⊎ ((before : List (List SstMeta)) × (l : List SstMeta) × (l' : List SstMeta) × (behind : List
          (List SstMeta))
        × (m.levels ≡ before ++ (l ∷ behind))
        × All (Lacks id) before
        × (length l' < length l)
        × Without id l l'
        × (remove_sst id m ≡ (record { levels = before ++ (l' ∷ behind) }, true)))

-- Removing a table answers whether a level held the id. If none did, the manifest is unchanged;
-- else the first level with the id has lost every table with it and no other, and keeps the others
-- in their order, and the levels before and behind that one are unchanged.
pub remove_sst_lem : (id : ℕ) (m : Manifest) → Removal id m
unfolding remove_sst
remove_sst_lem id m = elim (remove_loop_lem id m.levels) [
  | inl (e, lacks) ↦ inl (rw e refl, lacks)
  | inr (before, l, behind, split, none_before, fewer, e) ↦ inr (
    before,
    l,
    retain_other id l,
    behind,
    split,
    none_before,
    fewer,
    retain_other-Without id l,
    rw e refl,
  )
]
