-- ===== src/Engine/Read/Newest.antt =====
-- What the lookups of src/engine.rs return: the newest of the memtable and the tables answers.
use rust_kvdb.Prelude.{
  ℕ, ◌+◌, Option, Option-cases, none, some, List, [], ◌∷◌, ◌≡◌, refl, ap, ◌∙◌, inl, inr,
}
use mathlib.Core.List.{reverse}
use rust_kvdb.Bytes.{Bytes}
use rust_kvdb.KvError.{Result, ok}
use rust_kvdb.SortedMap.{Entries, lookup, IsSorted}
use rust_kvdb.Manifest.{SstMeta}
use rust_kvdb.Memtable.MemTable
use rust_kvdb.Memtable.MemTable.Holding.{Holding, Holding-get}
use rust_kvdb.Cache.{CacheKey, BlockCache}
use rust_kvdb.Sstable.Block.{Block}
use rust_kvdb.Sstable.Reader.{SstableReader, Search, read_block}
use rust_kvdb.Sstable.Reader.Cached.{Coherent}
use rust_kvdb.Sstable.Reader.Lookup.{IsBinarySearch}
use rust_kvdb.Sstable.Reader.Get.{IsTable, get-lookup_table}
use rust_kvdb.Engine.{Engine, Snapshot}
use rust_kvdb.Engine.Value.{unpack_value}
use rust_kvdb.Engine.Read.{visible, get_readers, search, after_memtable, get, get_at}

-- The answer of the first map that has a value at the key of which `answer` makes one.
unfoldable pub first_answer : (Bytes → Option (Option Bytes)) → Bytes → List Entries → Option Bytes
unfolding lookup
first_answer answer key [] = none
first_answer answer key (entries ∷ older) =
    let rest = first_answer answer key older in
    elim (lookup key entries) [
      | none ↦ rest
      | some v ↦ elim (answer v) [ none ↦ rest | some r ↦ r ]
    ]

module _ (disk : CacheKey → Result Block) where
  -- A reader of a table with these sorted entries, whose blocks are those on disk.
  pub record Reads (r : SstableReader) (entries : Entries) : Type 0 where
    pub table : IsTable r entries
    pub sorted : IsSorted entries
    pub same : (i : ℕ) → disk (record { sst_id = r.sst_id; block_idx = i }) ≡ read_block r i

  -- Readers of tables with these entries, in this order.
  abbrev pub ReadAll : List (SstMeta × SstableReader) → List Entries → Type 0
  ReadAll [] [] = Unit
  ReadAll [] (entries ∷ tables) = ⊥
  ReadAll (p ∷ readers) [] = ⊥
  ReadAll (p ∷ readers) (entries ∷ tables) = Reads p.1 entries × ReadAll readers tables

  -- An engine with these tables, the newest first, whose cache holds only blocks of the disk.
  pub record HasTables (e : Engine) (tables : List Entries) : Type 0 where
    pub readers : ReadAll (reverse e.sst_readers) tables
    pub cache : Coherent disk e.block_cache

  module _ (binary_search : List Bytes → Bytes → Search)
      (searches : IsBinarySearch binary_search) where
    get_readers-first_answer :
        (answer : Bytes → Option (Option Bytes)) (key : Bytes)
        (readers : List (SstMeta × SstableReader)) (tables : List Entries)
        (cache : Option BlockCache)
        → ReadAll readers tables
        → Coherent disk cache
        → (cache' : Option BlockCache) × (get_readers binary_search answer key readers cache
            ≡ (cache', ok (first_answer answer key tables)))
          × Coherent disk cache'
    unfolding get_readers first_answer
    get_readers-first_answer answer key [] [] cache a h = (cache, refl, h)
    get_readers-first_answer answer key [] (es ∷ tables) cache a h = absurd a
    get_readers-first_answer answer key (p ∷ readers) [] cache a h = absurd a
    get_readers-first_answer answer key ((meta, r) ∷ readers) (es ∷ tables) cache (t, a) h =
        let (c1, found, h1) =
          get-lookup_table binary_search searches disk r es key cache t.table t.sorted h t.same in
        let (c2, rest, h2) = get_readers-first_answer answer key readers tables c1 a h1 in
        let same = ap (λ p. get_readers binary_search answer key readers p.0) found in
        elim (Option-cases (lookup key es)) [
          | inl none_ ↦ (c2, rw (get_readers, first_answer, found, none_) (same ∙ rest), h2)
          | inr (v, some_) ↦ elim (Option-cases (answer v)) [
            | inl skip ↦ (c2, rw (get_readers, first_answer, found, some_, skip) (same ∙ rest), h2)
            | inr (x, hit) ↦ (
              c1,
              rw (get_readers, first_answer, found, some_, hit) (ap (λ p. (p.0, ok x)) found),
              h1,
            )
          ]
        ]

    -- The memtable's answer comes first; nothing but the cache is changed.
    search-first_answer :
        (answer : Bytes → Option (Option Bytes)) (key : Bytes) (e : Engine) (recent : Entries)
        (tables : List Entries)
        → MemTable.get key e.memtable ≡ some (lookup key recent)
        → HasTables e tables
        → (cache' : Option BlockCache) × (search binary_search answer key e
            ≡ (record e { block_cache = cache' }, ok (first_answer answer key (recent ∷ tables))))
          × Coherent disk cache'
    unfolding search first_answer
    search-first_answer answer key e recent tables held h =
        let (c, asks, h') =
          get_readers-first_answer answer key (reverse e.sst_readers) tables e.block_cache h.readers
            h.cache in
        elim (Option-cases (lookup key recent)) [
          | inl none_ ↦ (c, rw (first_answer, held, none_, asks) refl, h')
          | inr (v, some_) ↦ elim (Option-cases (answer v)) [
            | inl skip ↦ (c, rw (after_memtable, first_answer, held, some_, skip, asks) refl, h')
            | inr (x, hit) ↦
                (e.block_cache, rw (after_memtable, first_answer, held, some_, hit) refl, h.cache)
          ]
        ]

    pub get_lem :
        (now : ℕ) (key : Bytes) (e : Engine) (recent : Entries) (tables : List Entries)
        → MemTable.get key e.memtable ≡ some (lookup key recent)
        → HasTables e tables
        → (e' : Engine) × (get binary_search now key e
            ≡ (e', ok (first_answer (λ v. some (unpack_value now v)) key (recent ∷ tables))))
          × HasTables e' tables
          × (e'.memtable ≡ e.memtable)
    unfolding get
    get_lem now key e recent tables held h =
        let counted = record e { metrics = record e.metrics { reads = e.metrics.reads + 1 } } in
        let h1 : HasTables counted tables = record { readers = h.readers; cache = h.cache } in
        let (c, now_, h2) =
          search-first_answer (λ v. some (unpack_value now v)) key counted recent tables held h1 in
        (record counted { block_cache = c }, now_, record { readers = h.readers; cache = h2 }, refl)

    -- Where the memtable holds some entries and the readers are those of tables with sorted
    -- entries, a lookup of any key succeeds. It returns what the newest of these has at the key,
    -- the memtable first and then the last table first, unpacked. A lookup through a snapshot
    -- returns the newest that was written before it. Both leave the tables, the memtable and a
    -- coherent cache. The binary search must do what the standard library promises of it.
    pub get-first_answer :
        (now : ℕ) (key : Bytes) (snap : Snapshot) (e : Engine) (recent : Entries)
        (tables : List Entries)
        → Holding e.memtable recent
        → HasTables e tables
        → ((e' : Engine) × (get binary_search now key e
              ≡ (e', ok (first_answer (λ v. some (unpack_value now v)) key (recent ∷ tables))))
            × HasTables e' tables
            × (e'.memtable ≡ e.memtable))
          × ((e' : Engine) × (get_at binary_search now key snap e
                ≡ (e', ok (first_answer (visible now snap) key (recent ∷ tables))))
              × HasTables e' tables
              × (e'.memtable ≡ e.memtable))
    unfolding get_at
    get-first_answer now key snap e recent tables m h =
        let held = Holding-get e.memtable recent m key in
        let (c, then_, h') = search-first_answer (visible now snap) key e recent tables held h in
        (
          get_lem now key e recent tables held h,
          (record e { block_cache = c }, then_, record { readers = h.readers; cache = h' }, refl),
        )
