-- ===== src/Bytes/Order.antt =====
-- The order of byte strings: `Ord for Vec<u8>`, lexicographic.
use rust_kvdb.Prelude.{
  ◌⊎◌, inl, inr, ℕ, ◌≡◌, refl, Bool, true, false, List, [], ◌∷◌, arith, compare, Ordering,
}

-- `a.cmp(b)`
unfoldable pub compare_bytes : List ℕ → List ℕ → Ordering
compare_bytes [] [] = Ordering.eq
compare_bytes [] (y ∷ ys) = Ordering.lt
compare_bytes (x ∷ xs) [] = Ordering.gt
compare_bytes (x ∷ xs) (y ∷ ys) = elim (compare x y) [
  | Ordering.lt ↦ Ordering.lt
  | Ordering.eq ↦ compare_bytes xs ys
  | Ordering.gt ↦ Ordering.gt
]

-- `a < b`
abbrev pub bytes_lt : List ℕ → List ℕ → Bool
bytes_lt a b = elim (compare_bytes a b) [ Ordering.lt ↦ true | _ ↦ false ]

-- `a == b`
abbrev pub bytes_eq : List ℕ → List ℕ → Bool
bytes_eq a b = elim (compare_bytes a b) [ Ordering.eq ↦ true | _ ↦ false ]

pub compare_bytes_self : (a : List ℕ) → compare_bytes a a ≡ Ordering.eq
unfolding compare_bytes
compare_bytes_self [] = refl
compare_bytes_self (x ∷ xs) = ground (arith, compare_bytes_self xs)

pub eq_of_compare_bytes : (a b : List ℕ) → compare_bytes a b ≡ Ordering.eq → a ≡ b
unfolding compare_bytes
eq_of_compare_bytes [] [] h = refl
eq_of_compare_bytes [] (y ∷ ys) h = cc
eq_of_compare_bytes (x ∷ xs) [] h = cc
eq_of_compare_bytes (x ∷ xs) (y ∷ ys) h = ground (arith, eq_of_compare_bytes xs ys)

pub compare_bytes-flip :
    (a b : List ℕ) → compare_bytes a b ≡ Ordering.gt → compare_bytes b a ≡ Ordering.lt
unfolding compare_bytes
compare_bytes-flip [] [] h = cc
compare_bytes-flip [] (y ∷ ys) h = cc
compare_bytes-flip (x ∷ xs) [] h = refl
compare_bytes-flip (x ∷ xs) (y ∷ ys) h = ground (arith, compare_bytes-flip xs ys)

pub compare_bytes-flip_lt :
    (a b : List ℕ) → compare_bytes a b ≡ Ordering.lt → compare_bytes b a ≡ Ordering.gt
unfolding compare_bytes
compare_bytes-flip_lt [] [] h = cc
compare_bytes-flip_lt [] (y ∷ ys) h = refl
compare_bytes-flip_lt (x ∷ xs) [] h = cc
compare_bytes-flip_lt (x ∷ xs) (y ∷ ys) h = ground (arith, compare_bytes-flip_lt xs ys)

pub compare_bytes_trans :
    (a b c : List ℕ)
    → compare_bytes a b ≡ Ordering.lt
    → compare_bytes b c ≡ Ordering.lt
    → compare_bytes a c ≡ Ordering.lt
unfolding compare_bytes
compare_bytes_trans [] [] c h k = cc
compare_bytes_trans [] (y ∷ ys) [] h k = cc
compare_bytes_trans [] (y ∷ ys) (z ∷ zs) h k = refl
compare_bytes_trans (x ∷ xs) [] c h k = cc
compare_bytes_trans (x ∷ xs) (y ∷ ys) [] h k = cc
compare_bytes_trans (x ∷ xs) (y ∷ ys) (z ∷ zs) h k = ground (arith, compare_bytes_trans xs ys zs)

-- To split on a comparison and keep the equation.
pub compare_bytes_cases :
    (a b : List ℕ)
    → (compare_bytes a b ≡ Ordering.lt)
      ⊎ (compare_bytes a b ≡ Ordering.eq)
      ⊎ (compare_bytes a b ≡ Ordering.gt)
compare_bytes_cases a b = go (compare_bytes a b) refl
  where
    go :
        (o : Ordering)
        → compare_bytes a b ≡ o
        → (compare_bytes a b ≡ Ordering.lt)
          ⊎ (compare_bytes a b ≡ Ordering.eq)
          ⊎ (compare_bytes a b ≡ Ordering.gt)
    go Ordering.lt e = inl e
    go Ordering.eq e = inr (inl e)
    go Ordering.gt e = inr (inr e)
