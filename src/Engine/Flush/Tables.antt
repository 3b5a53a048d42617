-- ===== src/Engine/Flush/Tables.antt =====
-- A table that src/engine.rs writes, as it is read back.
use rust_kvdb.Prelude.{
  All-left, true, ℕ, ◌*◌, ◌^◌, ◌<◌, none, some, List, [], ◌∷◌, ◌++◌, length, map, All, append_assoc,
  append-nil, length-append, ◌≡◌, refl, ap, ◌∙◌, arith,
}
use rust_kvdb.Bytes.{Bytes}
use rust_kvdb.KvError.{Result, ok, err, panic, ◌>>=◌}
use rust_kvdb.Bloom
use rust_kvdb.Cache
use rust_kvdb.Cache.{CacheKey}
use rust_kvdb.Cache.Valid.{new-IsValid}
use rust_kvdb.SortedMap.{Entries, lookup, IsSorted}
use rust_kvdb.Sstable.Block.{Block, Entry}
use rust_kvdb.Sstable.Block.RoundTrip.{IsEntry}
use rust_kvdb.Sstable.Builder
use rust_kvdb.Sstable.Builder.{SstableBuilder, finish, write_index_block, default_bits_per_key}
use rust_kvdb.Sstable.Builder.Layout.{Layout, all_entries, add_lem}
use rust_kvdb.Sstable.Builder.Finish.{Finished, finish_lem, file_of, reader_of, open_lem}
use rust_kvdb.Sstable.Reader.{SstableReader, Search, open_with_cache, read_block, iter, get}
use rust_kvdb.Sstable.Reader.Blocks.{IsBlock}
use rust_kvdb.Sstable.Reader.Cached.{IsCoherent, iter-all_entries}
use rust_kvdb.Sstable.Reader.Lookup.{IsBinarySearch}
use rust_kvdb.Sstable.Reader.Get.{IsTable, get-lookup_table}
use rust_kvdb.Bloom.Member.{may_contain_total}
use rust_kvdb.Engine.Flush.{add_entries}

-- A builder that holds these entries, in its blocks and in the one that was begun.
record Holds (b : SstableBuilder) (entries : Entries) : Type 0 where
  blocks : List (List Entry)
  layout : Layout b blocks
  all : all_entries blocks ++ b.current_block.entries ≡ entries

new-Holds : (block_size : ℕ) → Holds (Builder.new block_size) []
unfolding Builder.new
new-Holds block_size = record {
  blocks = [];
  layout = record {
    file = refl;
    index = refl;
    position = refl;
    keys = refl;
    sized = refl;
    full = tt;
  };
  all = refl;
}

add_entries-Holds :
    (entries before : Entries) (b : SstableBuilder)
    → Holds b before
    → (b' : SstableBuilder) × (add_entries entries b ≡ ok b') × Holds b' (before ++ entries)
unfolding add_entries
add_entries-Holds [] before b h = (b, refl, rw append-nil h)
add_entries-Holds ((k, v) ∷ entries) before b h =
    let (b1, blocks1, adds, l1, all1) = add_lem k v b h.blocks h.layout in
    let h1 : Holds b1 (before ++ ((k, v) ∷ [])) = record {
      blocks = blocks1;
      layout = l1;
      all = all1 ∙ ap (λ es. es ++ ((k, v) ∷ [])) h.all;
    } in
    let (b', rest, h') = add_entries-Holds entries (before ++ ((k, v) ∷ [])) b1 h1 in
    (b', rw (adds, rest) refl, rw (append_assoc before ((k, v) ∷ []) entries) at h')

-- The file of a table with these entries.
abbrev pub table_file : (ℕ → ℕ) → ℕ → Entries → Result Bytes
table_file ln2_rounded block_size entries =
    add_entries entries (Builder.new block_size) >>= finish ln2_rounded

-- The number of bytes of a file, if there is one.
abbrev pub size_of : Result Bytes → ℕ
size_of (ok contents) = length contents
size_of (err e) = 0
size_of panic = 0

IsBlock-all_entries :
    (blocks : List (List Entry))
    → length (all_entries blocks) < 2 ^ 32
    → All IsEntry (all_entries blocks)
    → All (All IsEntry) blocks × All IsBlock blocks
IsBlock-all_entries [] few fits = (tt, tt)
IsBlock-all_entries (es ∷ blocks) few fits =
    let sizes = length-append es (all_entries blocks) in
    let (here, later) = All-left IsEntry es (all_entries blocks) fits in
    let (a, b) = IsBlock-all_entries blocks (omega (arith, sizes, few)) later in
    ((here, a), (record { few = omega (arith, sizes, few); fits = here }, b))

length-keys : (entries : Entries) → length (map (λ e. e.0) entries) ≡ length entries
length-keys [] = refl
length-keys (e ∷ entries) = omega (arith, length-keys entries)

file_of-split :
    (b : SstableBuilder) (bloom : Bloom.BloomFilter)
    → (tail : Bytes) × (file_of b bloom ≡ b.file ++ tail)
unfolding write_index_block
file_of-split b bloom = (_, append_assoc b.file _ _)

-- The members of the filter, from its keys.
members_lem :
    (P : Bytes → Type 0) (entries : Entries)
    → All P (map (λ e. e.0) entries)
    → All (λ e. P e.0) entries
members_lem P [] a = tt
members_lem P (e ∷ entries) (p, a) = (p, members_lem P entries a)

-- A finished file is opened by a reader of a table with the entries.
reader_lem :
    (b : SstableBuilder) (blocks : List (List Entry)) (contents : Bytes) (entries : Entries)
    (sst_id : ℕ)
    → Finished b blocks contents
    → all_entries blocks ++ b.current_block.entries ≡ entries
    → All IsEntry entries
    → length entries * 10 < 2 ^ 32
    → length contents < 2 ^ 32
    → (r : SstableReader) × (open_with_cache contents sst_id ≡ ok r)
      × IsTable r entries
      × (r.sst_id ≡ sst_id)
reader_lem b blocks contents entries sst_id f all fits few small =
    let bloom = f.bloom in
    let same : all_entries f.blocks' ≡ entries = f.entries ∙ all in
    let keys : f.builder.all_keys ≡ map (λ e. e.0) entries = f.keys ∙ ap (map (λ e. e.0)) same in
    let count : length f.builder.all_keys ≡ length entries = ap length keys ∙ length-keys entries in
    let (good, blocks_good) =
      IsBlock-all_entries f.blocks' (omega (arith, ap length same, few)) (rw same fits) in
    let size : length (file_of f.builder bloom) < 2 ^ 32 = omega (arith, ap length f.file, small) in
    let opens =
      open_lem f.builder f.blocks' bloom sst_id f.layout good f.built (omega (arith, count, few))
        size in
    let (tail, split) = file_of-split f.builder bloom in
    let in_filter : All (λ k. Bloom.may_contain k bloom ≡ ok true) (map (λ e. e.0) entries) =
      rw keys at f.built.members in
    (
      reader_of f.builder bloom sst_id,
      ap (λ c. open_with_cache c sst_id) f.file ∙ opens,
      record {
        blocks = f.blocks';
        has = record {
          tail = tail;
          contents = split ∙ ap (λ (w : Bytes). w ++ tail) f.layout.file;
          index = f.layout.index;
          index_offset = ap length f.layout.file;
          small = omega (
            arith,
            size,
            ap length split,
            length-append f.builder.file tail,
            ap length f.layout.file,
          );
          good = blocks_good;
        };
        all = same;
        full = f.layout.full;
        members = members_lem (λ k. Bloom.may_contain k bloom ≡ ok true) entries in_filter;
        answers =
            λ key. may_contain_total f.builder.all_keys default_bits_per_key bloom key f.built;
      },
      refl,
    )

-- A table of such entries is written and opened without an error.
pub table_file_lem :
    (ln2_rounded : ℕ → ℕ) (block_size : ℕ) (entries : Entries) (sst_id : ℕ)
    → All IsEntry entries
    → length entries * 10 < 2 ^ 32
    → size_of (table_file ln2_rounded block_size entries) < 2 ^ 32
    → (contents : Bytes) × (table_file ln2_rounded block_size entries ≡ ok contents)
      × (r : SstableReader) × (open_with_cache contents sst_id ≡ ok r)
      × IsTable r entries
      × (r.sst_id ≡ sst_id)
table_file_lem ln2_rounded block_size entries sst_id fits few small =
    let (b, adds, h) =
      add_entries-Holds entries [] (Builder.new block_size) (new-Holds block_size) in
    let (contents, finishes, f) = finish_lem ln2_rounded b h.blocks h.layout in
    let made : table_file ln2_rounded block_size entries ≡ ok contents =
      ap (λ t. t >>= finish ln2_rounded) adds ∙ finishes in
    let size : length contents < 2 ^ 32 = omega (arith, small, ap size_of made) in
    let (r, opens, t, id) = reader_lem b h.blocks contents entries sst_id f h.all fits few size in
    (contents, made, r, opens, t, id)

-- A new cache is coherent with any disk.
new-IsCoherent :
    (disk : CacheKey → Result Block) (capacity : ℕ) → IsCoherent disk (Cache.new capacity)
unfolding Cache.lookup
new-IsCoherent disk capacity = record {
  valid = new-IsValid capacity;
  same = λ k s e. absurd (cc e);
}

-- Any entries, with keys shorter than 2^16 bytes and values shorter than 2^32, fewer than 2^32 / 10
-- of them and with a file shorter than 2^32 bytes, are written to a table without an error. It is
-- opened again, and iterating over it yields exactly those entries, in their order, without a cache
-- or with a new one of any capacity.
pub iter-table_file :
    (ln2_rounded : ℕ → ℕ) (block_size : ℕ) (entries : Entries) (sst_id capacity : ℕ)
    → All IsEntry entries
    → length entries * 10 < 2 ^ 32
    → size_of (table_file ln2_rounded block_size entries) < 2 ^ 32
    → (contents : Bytes) × (table_file ln2_rounded block_size entries ≡ ok contents)
      × (r : SstableReader) × (open_with_cache contents sst_id ≡ ok r)
      × ((iter r none).1 ≡ ok entries)
      × ((iter r (some (Cache.new capacity))).1 ≡ ok entries)
iter-table_file ln2_rounded block_size entries sst_id capacity fits few small =
    let (contents, made, r, opens, t, id) =
      table_file_lem ln2_rounded block_size entries sst_id fits few small in
    let disk : CacheKey → Result Block = λ k. read_block r k.block_idx in
    let (c, plain, _) = iter-all_entries disk r t.blocks none tt (λ i. refl) t.has in
    let (c', cached, _) =
      iter-all_entries disk r t.blocks (some (Cache.new capacity)) (new-IsCoherent disk capacity)
        (λ i. refl) t.has in
    (
      contents,
      made,
      r,
      opens,
      ap (λ p. p.1) plain ∙ ap ok t.all,
      ap (λ p. p.1) cached ∙ ap ok t.all,
    )

-- Sorted entries of such sizes are written to a table and opened again without an error, and a
-- lookup of any key in it returns what the entries have there, or nothing, without a cache or with
-- a new one of any capacity. The binary search must do what the standard library promises of it.
pub get-table_file :
    (binary_search : List Bytes → Bytes → Search) (ln2_rounded : ℕ → ℕ) (block_size : ℕ)
    (entries : Entries) (sst_id capacity : ℕ)
    → IsBinarySearch binary_search
    → IsSorted entries
    → All IsEntry entries
    → length entries * 10 < 2 ^ 32
    → size_of (table_file ln2_rounded block_size entries) < 2 ^ 32
    → (contents : Bytes) × (table_file ln2_rounded block_size entries ≡ ok contents)
      × (r : SstableReader) × (open_with_cache contents sst_id ≡ ok r)
      × ((key : Bytes)
          → ((get binary_search key r none).1 ≡ ok (lookup key entries))
            × ((get binary_search key r (some (Cache.new capacity))).1 ≡ ok (lookup key entries)))
get-table_file binary_search ln2_rounded block_size entries sst_id capacity searches sorted fits few
      small =
    let (contents, made, r, opens, t, id) =
      table_file_lem ln2_rounded block_size entries sst_id fits few small in
    let disk : CacheKey → Result Block = λ k. read_block r k.block_idx in
    (
      contents,
      made,
      r,
      opens,
      λ key.
          let (c, plain, _) =
            get-lookup_table binary_search searches disk r entries key none t sorted tt
              (λ i. refl) in
          let (c', cached, _) =
            get-lookup_table binary_search searches disk r entries key (some (Cache.new capacity)) t
              sorted (new-IsCoherent disk capacity) (λ i. refl) in
          (ap (λ p. p.1) plain, ap (λ p. p.1) cached),
    )
