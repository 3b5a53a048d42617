-- ===== src/Sstable/Reader/Lookup.antt =====
-- The lookup of a key in an opened SSTable.
use rust_kvdb.Prelude.{
  ℕ, zero, suc, false, none, some, List, [], ◌∷◌, ◌++◌, length, map, get_elem?, take, drop, All,
  All-get_elem?, take-append-drop, ◌≡◌, refl, ap, sym, ◌∙◌, arith, ◌⊎◌, Ordering, inl, inr,
}
use rust_kvdb.Bytes.{Bytes}
use rust_kvdb.Bytes.Order.{compare_bytes, bytes_eq, compare_bytes_self}
use rust_kvdb.KvError.{ok}
use rust_kvdb.SortedMap.{Entries, lookup, IsSorted}
use rust_kvdb.Sstable.Block.{Entry}
use rust_kvdb.Sstable.Reader.{Search, found, missing, find_entry}

-- Each entry is below the key, or above it.
abbrev pub Below : Bytes → Entries → Type 0
Below key entries = All (λ e. compare_bytes e.0 key ≡ Ordering.lt) entries

abbrev pub Above : Bytes → Entries → Type 0
Above key entries = All (λ e. compare_bytes e.0 key ≡ Ordering.gt) entries

pub lookup-Below :
    (key : Bytes) (xs ys : Entries) → Below key xs → lookup key (xs ++ ys) ≡ lookup key ys
unfolding lookup
lookup-Below key [] ys b = refl
lookup-Below key (x ∷ xs) ys (lt, b) = ground (arith, lookup-Below key xs ys b)

pub lookup-Above : (key : Bytes) (ys : Entries) → Above key ys → lookup key ys ≡ none
unfolding lookup
lookup-Above key [] a = refl
lookup-Above key (y ∷ ys) (gt, a) = ground (arith, lookup-Above key ys a)

pub lookup-Above_append :
    (key : Bytes) (xs ys : Entries) → Above key ys → lookup key (xs ++ ys) ≡ lookup key xs
unfolding lookup
lookup-Above_append key [] ys a = lookup-Above key ys a
lookup-Above_append key (x ∷ xs) ys a = ground (arith, lookup-Above_append key xs ys a)

-- A key that stands at a place of sorted entries is found there.
lookup-get_elem? :
    (key : Bytes) (entries : Entries) (i : ℕ) (e : Entry)
    → IsSorted entries
    → get_elem? entries i ≡ some e
    → e.0 ≡ key
    → lookup key entries ≡ some e.1
unfolding lookup
lookup-get_elem? key [] i e s at same = absurd (cc at)
lookup-get_elem? key (x ∷ entries) zero e s at same =
    let q : x ≡ e = cc at in
    ground (arith, ap (λ (p : Entry). p.0) q, ap (λ (p : Entry). p.1) q, compare_bytes_self key)
lookup-get_elem? key (x ∷ entries) (suc i) e (below, s) at same =
    let lt : compare_bytes x.0 e.0 ≡ Ordering.lt =
      All-get_elem? (λ f. compare_bytes x.0 f.0 ≡ Ordering.lt) entries i below at in
    let other : bytes_eq x.0 key ≡ false = ground (arith, rw same at lt) in
    rw (lookup, other) (lookup-get_elem? key entries i e s at same)

-- Sorted keys, each below all that follow.
abbrev pub IsSortedKeys : List Bytes → Type 0
IsSortedKeys [] = Unit
IsSortedKeys (k ∷ keys) = All (λ j. compare_bytes k j ≡ Ordering.lt) keys × IsSortedKeys keys

-- What `slice::binary_search_by` promises on sorted keys: the index of the key, or the one where it
-- belongs.
pub record IsBinarySearch (binary_search : List Bytes → Bytes → Search) : Type 0 where
  pub hit :
      (keys : List Bytes) (key : Bytes) (i : ℕ)
      → IsSortedKeys keys
      → binary_search keys key ≡ found i
      → get_elem? keys i ≡ some key
  pub miss :
      (keys : List Bytes) (key : Bytes) (i : ℕ)
      → IsSortedKeys keys
      → binary_search keys key ≡ missing i
      → All (λ k. compare_bytes k key ≡ Ordering.lt) (take i keys)
        × All (λ k. compare_bytes k key ≡ Ordering.gt) (drop i keys)

pub Search-cases : (s : Search) → ((i : ℕ) × (s ≡ found i)) ⊎ ((i : ℕ) × (s ≡ missing i))
Search-cases (found i) = inl (i, refl)
Search-cases (missing i) = inr (i, refl)

All-keys : (P : Bytes → Type 0) (es : Entries) → All (λ f. P f.0) es → All P (map (λ f. f.0) es)
All-keys P [] a = tt
All-keys P (f ∷ es) (p, a) = (p, All-keys P es a)

keys-IsSortedKeys : (entries : Entries) → IsSorted entries → IsSortedKeys (map (λ e. e.0) entries)
keys-IsSortedKeys [] s = tt
keys-IsSortedKeys (e ∷ entries) (below, s) =
    (All-keys (λ k. compare_bytes e.0 k ≡ Ordering.lt) entries below, keys-IsSortedKeys entries s)

pub get_elem?-map :
    {A B : Type 0} (f : A → B) (xs : List A) (i : ℕ) (y : B)
    → get_elem? (map f xs) i ≡ some y
    → (pre : List A) × (x : A) × (post : List A) × (xs ≡ pre ++ (x ∷ post))
      × (length pre ≡ i)
      × (f x ≡ y)
      × (get_elem? xs i ≡ some x)
get_elem?-map f [] i y e = absurd (cc e)
get_elem?-map f (x ∷ xs) zero y e = ([], x, xs, refl, refl, cc e, refl)
get_elem?-map f (x ∷ xs) (suc i) y e =
    let (pre, z, post, parts, n, same, at) = get_elem?-map f xs i y e in
    (x ∷ pre, z, post, ap (◌∷◌ x) parts, ap suc n, same, at)

take_map :
    (P : Bytes → Type 0) (es : Entries) (i : ℕ)
    → All P (take i (map (λ e. e.0) es))
    → All (λ e. P e.0) (take i es)
take_map P es zero a = tt
take_map P [] (suc i) a = tt
take_map P (e ∷ es) (suc i) (p, a) = (p, take_map P es i a)

drop_map :
    (P : Bytes → Type 0) (es : Entries) (i : ℕ)
    → All P (drop i (map (λ e. e.0) es))
    → All (λ e. P e.0) (drop i es)
drop_map P [] zero a = tt
drop_map P (e ∷ es) zero (p, a) = (p, drop_map P es zero a)
drop_map P [] (suc i) a = tt
drop_map P (e ∷ es) (suc i) a = drop_map P es i a

module _ (binary_search : List Bytes → Bytes → Search)
    (searches : IsBinarySearch binary_search) where
  -- The search in a sorted block is the lookup in it.
  pub find_entry_lem :
      (key : Bytes) (es : List Entry) (n : ℕ)
      → IsSorted es
      → find_entry binary_search key (record { entries = es; encoded_size = n })
        ≡ ok (lookup key es)
  unfolding find_entry
  find_entry_lem key es n s =
      let keys = map (λ (e : Entry). e.0) es in
      let sorted = keys-IsSortedKeys es s in
      elim (Search-cases (binary_search keys key)) [
        | inl (i, hit) ↦
            let (pre, e, post, parts, m, same, at) =
              get_elem?-map (λ (e : Entry). e.0) es i key (searches.hit keys key i sorted hit) in
            rw (find_entry, hit, at) (ap ok (sym (lookup-get_elem? key es i e s at same)))
        | inr (i, miss) ↦
            let (below, above) = searches.miss keys key i sorted miss in
            let none_there : lookup key es ≡ none =
              ap (lookup key) (sym (take-append-drop i es))
              ∙ lookup-Below key (take i es) (drop i es)
                  (take_map (λ k. compare_bytes k key ≡ Ordering.lt) es i below)
              ∙ lookup-Above key (drop i es)
                  (drop_map (λ k. compare_bytes k key ≡ Ordering.gt) es i above) in
            rw (find_entry, miss) (ap ok (sym none_there))
      ]
