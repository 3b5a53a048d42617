-- ===== src/Sstable/Reader/Cached.antt =====
-- Loading blocks through the shared cache, and the iteration over a table.
use rust_kvdb.Prelude.{
  ℕ, suc, ltb, Option, none, some, List, [], ◌∷◌, ◌++◌, length, append_assoc, length-append, ◌≡◌,
  refl, ap, sym, ◌∙◌, arith, Bool-cases, Option-cases, inl, inr,
}
use rust_kvdb.KvError.{Result, ok, ◌>>=◌}
use rust_kvdb.Cache
use rust_kvdb.Cache.{CacheKey, BlockCache, Slot, key_eq}
use rust_kvdb.Cache.Assoc.{eq_of_key_eq, count}
use rust_kvdb.Cache.Valid
use rust_kvdb.Cache.Valid.{get-IsValid}
use rust_kvdb.Cache.Put.{Put, put_lem}
use rust_kvdb.Sstable.Block.{Block, Entry, estimated_size}
use rust_kvdb.Sstable.Builder.Layout.{all_entries}
use rust_kvdb.Sstable.Reader.{
  SstableReader, read_block, load_block, iterator, iter, get_cached, put_cached, read_through,
  then_rest,
}
use rust_kvdb.Sstable.Reader.Blocks.{HasBlocks, decoded, read_block_lem, length-index_of}

-- `disk` is the block of each table at each place.
module _ (disk : CacheKey → Result Block) where
  -- A valid cache whose blocks are those on disk.
  pub record IsCoherent (c : BlockCache) : Type 0 where
    pub valid : Valid.IsValid c
    pub same : (k : CacheKey) (s : Slot) → Cache.lookup k c.map ≡ some s → disk k ≡ ok s.0

  abbrev pub Coherent : Option BlockCache → Type 0
  Coherent none = Unit
  Coherent (some c) = IsCoherent c

  get_map : (key : CacheKey) (c : BlockCache) → (Cache.get key c).0.map ≡ c.map
  unfolding Cache.get
  get_map key c = elim (Option-cases (Cache.lookup key c.map)) [
    | inl miss ↦ rw (Cache.get, miss) refl
    | inr (s, hit) ↦ rw (Cache.get, hit) refl
  ]

  get-IsCoherent : (key : CacheKey) (c : BlockCache) → IsCoherent c → IsCoherent (Cache.get key c).0
  get-IsCoherent key c h = record {
    valid = get-IsValid key c h.valid;
    same = λ k s e. h.same k s (sym (ap (Cache.lookup k) (get_map key c)) ∙ e);
  }

  Put-IsCoherent :
      (key : CacheKey) (block : Block) (c c' : BlockCache)
      → IsCoherent c
      → disk key ≡ ok block
      → Put key block c c'
      → IsCoherent c'
  Put-IsCoherent key block c c' h on_disk p = record {
    valid = p.valid;
    same = λ k s e. elim (Bool-cases (key_eq key k)) [
      | inl here ↦
          let q : Cache.lookup k c'.map ≡ some (block, estimated_size block) =
            ground (arith, p.slots k) in
          let same : s ≡ (block, estimated_size block) = cc (e, q) in
          rw same (ap disk (sym (eq_of_key_eq key k here)) ∙ on_disk)
      | inr other ↦ elim (Bool-cases (ltb 0 (count k p.kept))) [
        | inl kept ↦
            let q : Cache.lookup k c'.map ≡ Cache.lookup k c.map = ground (arith, p.slots k) in
            h.same k s (sym q ∙ e)
        | inr gone ↦
            let q : Cache.lookup k c'.map ≡ none = ground (arith, p.slots k) in absurd (cc (q, e))
      ]
    ];
  }

  get_cached-hit :
      (key : CacheKey) (c : BlockCache) (s : Slot)
      → Cache.lookup key c.map ≡ some s
      → get_cached key (some c) ≡ (some (Cache.get key c).0, some s.0)
  unfolding Cache.get
  get_cached-hit key c s hit = rw (Cache.get, hit) refl

  get_cached-miss :
      (key : CacheKey) (c : BlockCache)
      → Cache.lookup key c.map ≡ none
      → get_cached key (some c) ≡ (some c, none)
  unfolding Cache.get
  get_cached-miss key c miss = rw (Cache.get, miss) refl

  -- A block is the one on disk, whether or not it comes from the cache, which stays coherent.
  pub load_block_lem :
      (r : SstableReader) (i : ℕ) (block : Block) (cache : Option BlockCache)
      → Coherent cache
      → disk (record { sst_id = r.sst_id; block_idx = i }) ≡ read_block r i
      → read_block r i ≡ ok block
      → (cache' : Option BlockCache) × (load_block r i cache ≡ (cache', ok block)) × Coherent cache'
  unfolding load_block
  load_block_lem r i block none h same reads = (none, rw (load_block, read_through, reads) refl, tt)
  load_block_lem r i block (some c) h same reads =
      let key : CacheKey = record { sst_id = r.sst_id; block_idx = i } in
      elim (Option-cases (Cache.lookup key c.map)) [
        | inl miss ↦
            let (c', puts, p) = put_lem key block c h.valid in
            (
              some c',
              ap (read_through r i key) (get_cached-miss key c miss)
                  ∙ rw (read_through, reads, put_cached, puts) refl,
              Put-IsCoherent key block c c' h (same ∙ reads) p,
            )
        | inr (s, hit) ↦
            let there : ok s.0 ≡ ok block = sym (h.same key s hit) ∙ same ∙ reads in
            (
              some (Cache.get key c).0,
              ap (read_through r i key) (get_cached-hit key c s hit)
                  ∙ ap (λ b. (some (Cache.get key c).0, b)) there,
              get-IsCoherent key c h,
            )
      ]

  -- The iteration from a block on.
  iterator_lem :
      (r : SstableReader) (pre post : List (List Entry)) (cache : Option BlockCache)
      → Coherent cache
      → ((i : ℕ) → disk (record { sst_id = r.sst_id; block_idx = i }) ≡ read_block r i)
      → HasBlocks r (pre ++ post)
      → (cache' : Option BlockCache) × (iterator (length post) (length pre) r cache
          ≡ (cache', ok (all_entries post)))
        × Coherent cache'
  unfolding iterator
  iterator_lem r pre [] cache h same blocks = (cache, refl, h)
  iterator_lem r pre (es ∷ post) cache h same blocks =
      let reads = read_block_lem r pre post es blocks in
      let (c1, loads, h1) =
        load_block_lem r (length pre) (decoded es) cache h (same (length pre)) reads in
      let split : (pre ++ (es ∷ [])) ++ post ≡ pre ++ (es ∷ post) =
        append_assoc pre (es ∷ []) post in
      let blocks' : HasBlocks r ((pre ++ (es ∷ [])) ++ post) = rw split blocks in
      let (c2, rest, h2) = iterator_lem r (pre ++ (es ∷ [])) post c1 h1 same blocks' in
      let next : length (pre ++ (es ∷ [])) ≡ suc (length pre) =
        omega (arith, length-append pre (es ∷ [])) in
      let rest' : iterator (length post) (suc (length pre)) r c1 ≡ (c2, ok (all_entries post)) =
        ap (λ i. iterator (length post) i r c1) (sym next) ∙ rest in
      (
        c2,
        ap (then_rest (iterator (length post) (suc (length pre)) r)) loads
            ∙ ap (λ p. (p.0, p.1 >>= λ entries. ok (es ++ entries))) rest',
        h2,
      )

  -- The iteration over a whole table yields the entries of its blocks, in order, with a cache that
  -- stays coherent.
  pub iter-all_entries :
      (r : SstableReader) (blocks : List (List Entry)) (cache : Option BlockCache)
      → Coherent cache
      → ((i : ℕ) → disk (record { sst_id = r.sst_id; block_idx = i }) ≡ read_block r i)
      → HasBlocks r blocks
      → (cache' : Option BlockCache) × (iter r cache ≡ (cache', ok (all_entries blocks)))
        × Coherent cache'
  unfolding iter
  iter-all_entries r blocks cache h same has =
      let (c', e, h') = iterator_lem r [] blocks cache h same has in
      let count : length r.index ≡ length blocks = ap length has.index ∙ length-index_of 0 blocks in
      (c', ap (λ n. iterator n 0 r cache) count ∙ e, h')
