-- ===== src/Sstable/Reader/Get.antt =====
-- `SSTableReader::get` against the entries of the table.
use rust_kvdb.Prelude.{
  ℕ, zero, suc, ◌+◌, ◌<◌, ltb, true, false, Option, none, some, List, [], ◌∷◌, ◌++◌, length, map,
  take, drop, All, All-left, append-nil, ◌≡◌, refl, ap, sym, ◌∙◌, arith, ◌⊎◌, Ordering, Bool-cases,
  inl, inr,
}
use native.Mathlib.Decide.{dec_lt}
use rust_kvdb.Bytes.{Bytes}
use rust_kvdb.Bytes.Order.{compare_bytes, bytes_eq, eq_of_compare_bytes}
use rust_kvdb.KvError.{Result, ok}
use rust_kvdb.SortedMap.{Entries, lookup, IsSorted}
use rust_kvdb.Bloom
use rust_kvdb.Cache.{CacheKey, BlockCache}
use rust_kvdb.Sstable.Block
use rust_kvdb.Sstable.Block.{Block, Entry}
use rust_kvdb.Sstable.Builder.Layout.{block_of, index_of, last_of, all_entries}
use rust_kvdb.Sstable.Reader.{
  SstableReader, Search, find_block, get, get_in_block, read_block, load_block,
}
use rust_kvdb.Sstable.Reader.Blocks.{HasBlocks, decoded, read_block_lem, length-index_of}
use rust_kvdb.Sstable.Reader.Cached.{Coherent, load_block_lem}
use rust_kvdb.Sstable.Reader.Lookup.{
  IsBinarySearch, IsSortedKeys, Search-cases, get_elem?-map, find_entry_lem, lookup-Below,
}
use rust_kvdb.Sstable.Reader.Choose.{Below-blocks, lookup-block, map-IsSortedKeys}

-- A reader of a table with these entries: its blocks hold them, and its filter answers for them.
pub record IsTable (r : SstableReader) (entries : Entries) : Type 0 where
  pub blocks : List (List Entry)
  pub has : HasBlocks r blocks
  pub all : all_entries blocks ≡ entries
  pub full : All (λ es. 0 < length es) blocks
  pub members : All (λ e. Bloom.may_contain e.0 r.bloom ≡ ok true) entries
  pub answers :
      (key : Bytes)
      → (Bloom.may_contain key r.bloom ≡ ok true) ⊎ (Bloom.may_contain key r.bloom ≡ ok false)

absent_lem :
    (f : Bloom.BloomFilter) (key : Bytes) (entries : Entries)
    → All (λ e. Bloom.may_contain e.0 f ≡ ok true) entries
    → Bloom.may_contain key f ≡ ok false
    → lookup key entries ≡ none
unfolding lookup
absent_lem f key [] a no_ = refl
absent_lem f key (e ∷ entries) (yes_, a) no_ = elim (Bool-cases (bytes_eq e.0 key)) [
  | inl same ↦
      let q : e.0 ≡ key = eq_of_compare_bytes e.0 key (ground arith) in
      let yes' : Bloom.may_contain key f ≡ ok true = rw q at yes_ in absurd (cc (yes', no_))
  | inr other ↦ rw (lookup, other) (absent_lem f key entries a no_)
]

index-keys :
    (offset : ℕ) (blocks : List (List Entry))
    → map (λ (e : ℕ × Bytes). e.1) (index_of offset blocks) ≡ map last_of blocks
index-keys offset [] = refl
index-keys offset (es ∷ blocks) =
    ap (◌∷◌ (last_of es)) (index-keys (offset + length (Block.encode (block_of es))) blocks)

split_at :
    (blocks : List (List Entry)) (i : ℕ)
    → i < length blocks
    → (pre : List (List Entry)) × (es : List Entry) × (post : List (List Entry)) × (blocks
        ≡ pre ++ (es ∷ post))
      × (length pre ≡ i)
split_at [] i h = absurd (omega arith)
split_at (es ∷ blocks) zero h = ([], es, blocks, refl, refl)
split_at (fs ∷ blocks) (suc i) h =
    let (pre, es, post, parts, n) = split_at blocks i (omega arith) in
    (fs ∷ pre, es, post, ap (◌∷◌ fs) parts, ap suc n)

-- The last keys before a block are below its own.
lasts_below :
    (pre post : List (List Entry)) (es : List Entry)
    → IsSortedKeys (map last_of (pre ++ (es ∷ post)))
    → All (λ k. compare_bytes k (last_of es) ≡ Ordering.lt) (map last_of pre)
lasts_below [] post es s = tt
lasts_below (fs ∷ pre) post es (below, s) = (middle pre below, lasts_below pre post es s)
  where
    middle :
        (pre : List (List Entry))
        → All (λ j. compare_bytes (last_of fs) j ≡ Ordering.lt) (map last_of (pre ++ (es ∷ post)))
        → compare_bytes (last_of fs) (last_of es) ≡ Ordering.lt
    middle [] (p, a) = p
    middle (gs ∷ pre) (p, a) = middle pre a

-- What a failed search says of the block at its place.
around :
    (key : Bytes) (pre post : List (List Entry)) (es : List Entry)
    → All
        (λ k. compare_bytes k key ≡ Ordering.lt)
        (take (length pre) (map last_of (pre ++ (es ∷ post))))
    → All
        (λ k. compare_bytes k key ≡ Ordering.gt)
        (drop (length pre) (map last_of (pre ++ (es ∷ post))))
    → All (λ k. compare_bytes k key ≡ Ordering.lt) (map last_of pre)
      × (compare_bytes (last_of es) key ≡ Ordering.gt)
around key [] post es below (gt, above) = (tt, gt)
around key (fs ∷ pre) post es (lt, below) above =
    let (a, gt) = around key pre post es below above in ((lt, a), gt)

take_all : {A : Type 0} (xs : List A) (i : ℕ) → length xs < suc i → take i xs ≡ xs
take_all [] zero h = refl
take_all [] (suc i) h = refl
take_all (x ∷ xs) zero h = absurd (omega arith)
take_all (x ∷ xs) (suc i) h = ap (◌∷◌ x) (take_all xs i (omega arith))

length-lasts : (blocks : List (List Entry)) → length (map last_of blocks) ≡ length blocks
length-lasts [] = refl
length-lasts (es ∷ blocks) = omega (arith, length-lasts blocks)

module _ (binary_search : List Bytes → Bytes → Search)
    (searches : IsBinarySearch binary_search) where
  -- Where the search leads: to no block, for a key behind all entries, or to the only one in which
  -- the key can be.
  record Leads (r : SstableReader) (blocks : List (List Entry)) (key : Bytes) (i : ℕ) : Type 0 where
    pre : List (List Entry)
    es : List Entry
    post : List (List Entry)
    parts : blocks ≡ pre ++ (es ∷ post)
    place : length pre ≡ i
    sorted : IsSorted es
    same : lookup key (all_entries blocks) ≡ lookup key es

  leads_lem :
      (r : SstableReader) (blocks : List (List Entry)) (key : Bytes) (pre post : List (List Entry))
      (es : List Entry)
      → IsSorted (all_entries blocks)
      → All (λ es. 0 < length es) blocks
      → blocks ≡ pre ++ (es ∷ post)
      → All (λ k. compare_bytes k key ≡ Ordering.lt) (map last_of pre)
      → (last_of es ≡ key) ⊎ (compare_bytes (last_of es) key ≡ Ordering.gt)
      → Leads r blocks key (length pre)
  leads_lem r blocks key pre post es s full parts below last =
      let full' : All (λ es. 0 < length es) (pre ++ (es ∷ post)) = rw parts at full in
      let s' : IsSorted (all_entries (pre ++ (es ∷ post))) = rw parts at s in
      let (sorted, same) =
        lookup-block key pre post es s' (All-left (λ es. 0 < length es) pre (es ∷ post) full').1.0
          below last in
      record {
        pre = pre;
        es = es;
        post = post;
        parts = parts;
        place = refl;
        sorted = sorted;
        same = ap (λ bs. lookup key (all_entries bs)) parts ∙ same;
      }

  find_block_lem :
      (r : SstableReader) (blocks : List (List Entry)) (key : Bytes)
      → HasBlocks r blocks
      → IsSorted (all_entries blocks)
      → All (λ es. 0 < length es) blocks
      → ((find_block binary_search key r ≡ none) × (lookup key (all_entries blocks) ≡ none))
        ⊎ ((i : ℕ) × (find_block binary_search key r ≡ some i) × Leads r blocks key i)
  unfolding find_block lookup
  find_block_lem r blocks key has s full =
      let lasts = map last_of blocks in
      let sorted = map-IsSortedKeys blocks s full in
      let keys : map (λ (e : ℕ × Bytes). e.1) r.index ≡ lasts =
        ap (map (λ (e : ℕ × Bytes). e.1)) has.index ∙ index-keys 0 blocks in
      let count : length r.index ≡ length blocks = ap length has.index ∙ length-index_of 0 blocks in
      elim (Search-cases (binary_search lasts key)) [
        | inl (i, hit) ↦
            let (pre, es, post, parts, n, last, at) =
              get_elem?-map last_of blocks i key (searches.hit lasts key i sorted hit) in
            let sorted' : IsSortedKeys (map last_of (pre ++ (es ∷ post))) = rw parts at sorted in
            let below : All (λ k. compare_bytes k key ≡ Ordering.lt) (map last_of pre) =
              rw last at (lasts_below pre post es sorted') in
            inr (
              length pre,
              rw (find_block, keys, hit) (ap some (sym n)),
              leads_lem r blocks key pre post es s full parts below (inl last),
            )
        | inr (i, miss) ↦
            let (below, above) = searches.miss lasts key i sorted miss in
            elim (dec_lt i (length blocks)) [
              | yes inside ↦
                  let (pre, es, post, parts, n) = split_at blocks i inside in
                  let below' : All (λ k. compare_bytes k key ≡ Ordering.lt)
                      (take (length pre) (map last_of (pre ++ (es ∷ post)))) =
                    rw (parts, sym n) at below in
                  let above' : All (λ k. compare_bytes k key ≡ Ordering.gt)
                      (drop (length pre) (map last_of (pre ++ (es ∷ post)))) =
                    rw (parts, sym n) at above in
                  let (a, gt) = around key pre post es below' above' in
                  let test : ltb i (length r.index) ≡ true = ground (arith, count) in
                  inr (
                    length pre,
                    rw (find_block, keys, miss, test) (ap some (sym n)),
                    leads_lem r blocks key pre post es s full parts a (inr gt),
                  )
              | no outside ↦
                  let test : ltb i (length r.index) ≡ false = ground (arith, count) in
                  let all : All (λ k. compare_bytes k key ≡ Ordering.lt) lasts =
                    rw (take_all lasts i (omega (arith, outside, length-lasts blocks))) at below in
                  inl (
                    rw (find_block, keys, miss, test) refl,
                    ap (lookup key) (sym (append-nil (all_entries blocks)))
                        ∙ lookup-Below key (all_entries blocks) [] (Below-blocks key blocks s all),
                  )
            ]
      ]

  module _ (disk : CacheKey → Result Block) where
    load_lem :
        (r : SstableReader) (entries : Entries) (key : Bytes) (i : ℕ) (cache : Option BlockCache)
        → (t : IsTable r entries) → Coherent disk cache
        → ((i : ℕ) → disk (record { sst_id = r.sst_id; block_idx = i }) ≡ read_block r i)
        → Leads r t.blocks key i
        → (cache' : Option BlockCache) × (get_in_block binary_search key (load_block r i cache)
            ≡ (cache', ok (lookup key entries)))
          × Coherent disk cache'
    load_lem r entries key i cache t h same l =
        let has : HasBlocks r (l.pre ++ (l.es ∷ l.post)) = rw l.parts at t.has in
        let reads : read_block r i ≡ ok (decoded l.es) =
          ap (read_block r) (sym l.place) ∙ read_block_lem r l.pre l.post l.es has in
        let (c', loads, h') = load_block_lem disk r i (decoded l.es) cache h (same i) reads in
        let answer : lookup key l.es ≡ lookup key entries = sym l.same ∙ ap (lookup key) t.all in
        (
          c',
          ap (get_in_block binary_search key) loads
              ∙ ap (λ a. (c', a))
                  (find_entry_lem binary_search searches key l.es _ l.sorted ∙ ap ok answer),
          h',
        )

    -- A lookup in a table of sorted entries returns what they have at the key, and nothing for a
    -- key that they do not have, through any coherent cache, which stays coherent. The binary
    -- search must do what the standard library promises of it.
    pub get-lookup_table :
        (r : SstableReader) (entries : Entries) (key : Bytes) (cache : Option BlockCache)
        → IsTable r entries
        → IsSorted entries
        → Coherent disk cache
        → ((i : ℕ) → disk (record { sst_id = r.sst_id; block_idx = i }) ≡ read_block r i)
        → (cache' : Option BlockCache) × (get binary_search key r cache
            ≡ (cache', ok (lookup key entries)))
          × Coherent disk cache'
    unfolding get
    get-lookup_table r entries key cache t s h same = elim (t.answers key) [
      | inr no_ ↦ (
        cache,
        rw (get, no_)
            (ap (λ a. (cache, ok a)) (sym (absent_lem r.bloom key entries t.members no_))),
        h,
      )
      | inl yes_ ↦ elim (find_block_lem r t.blocks key t.has (rw t.all s) t.full) [
        | inl (nowhere, none_there) ↦ (
          cache,
          rw (get, yes_, nowhere)
              (ap (λ a. (cache, ok a)) (sym none_there ∙ ap (lookup key) t.all)),
          h,
        )
        | inr (i, at, l) ↦
            let (c', e, h') = load_lem r entries key i cache t h same l in
            (c', rw (get, yes_, at) e, h')
      ]
    ]
