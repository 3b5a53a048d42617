-- ===== src/Engine/Flush/Write.antt =====
-- What `maybe_flush` of src/engine.rs leaves when it writes a table.
use rust_kvdb.Prelude.{ℕ, ◌+◌, ◌*◌, ◌^◌, ◌<◌, List, [], ◌∷◌, ◌++◌, length, All, ◌≡◌, refl, ap, ◌∙◌}
use mathlib.Core.List.{get_last, cons-ne-nil, reverse-append}
use rust_kvdb.Bytes.{Bytes}
use rust_kvdb.KvError.{Result, ok}
use rust_kvdb.SortedMap.{Entries, IsSorted}
use rust_kvdb.Manifest.{SstMeta, sst_meta, add_sst}
use rust_kvdb.Cache.{CacheKey}
use rust_kvdb.Sstable.Block.{Block}
use rust_kvdb.Sstable.Block.RoundTrip.{IsEntry}
use rust_kvdb.Sstable.Reader.{SstableReader, open_with_cache, read_block}
use rust_kvdb.Engine.{Engine}
use rust_kvdb.Engine.Flush.{write_table}
use rust_kvdb.Engine.Flush.Tables.{table_file, size_of, table_file_lem}
use rust_kvdb.Engine.Read.Newest.{HasTables, Reads}

-- What the disk has at an id is what a reader of this file reads.
abbrev pub IsOnDisk : (CacheKey → Result Block) → Result Bytes → ℕ → Type 0
IsOnDisk disk file id =
    (contents : Bytes) (r : SstableReader)
    → file ≡ ok contents
    → open_with_cache contents id ≡ ok r
    → (i : ℕ) → disk (record { sst_id = id; block_idx = i }) ≡ read_block r i

module _ (disk : CacheKey → Result Block) where
  -- A table with these entries was written at a level, and is the newest one.
  pub record Wrote (level : ℕ) (entries : Entries) (tables : List Entries) (e e' : Engine)
      : Type 0 where
    pub meta : SstMeta
    pub id : meta.id ≡ e.next_sst_id
    pub manifest : e'.manifest ≡ add_sst level meta e.manifest
    pub holds : HasTables disk e' (entries ∷ tables)
    pub memtable : e'.memtable ≡ e.memtable
    pub opts : e'.opts ≡ e.opts
    pub wal : e'.wal ≡ e.wal
    pub fresh : e'.next_sst_id ≡ e.next_sst_id + 1

  pub write_table_lem :
      (ln2_rounded : ℕ → ℕ) (level : ℕ) (x : Bytes × Bytes) (rest : Entries) (tables : List Entries)
      (e : Engine)
      → IsSorted (x ∷ rest)
      → All IsEntry (x ∷ rest)
      → length (x ∷ rest) * 10 < 2 ^ 32
      → size_of (table_file ln2_rounded e.opts.block_size (x ∷ rest)) < 2 ^ 32
      → IsOnDisk disk (table_file ln2_rounded e.opts.block_size (x ∷ rest)) e.next_sst_id
      → HasTables disk e tables
      → (e' : Engine) × (write_table ln2_rounded level (x ∷ rest) e ≡ (e', ok tt))
        × Wrote level (x ∷ rest) tables e e'
  unfolding write_table
  write_table_lem ln2_rounded level x rest tables e sorted fits few small on_disk h =
      let (contents, made, r, opens, t, id) =
        table_file_lem ln2_rounded e.opts.block_size (x ∷ rest) e.next_sst_id fits few small in
      let y = get_last (x ∷ rest) (cons-ne-nil x rest) in
      let meta = sst_meta e.next_sst_id level x.0 y.0 in
      let e' = record e {
        next_sst_id = e.next_sst_id + 1;
        files = record e.files { sst_files = (e.next_sst_id, contents) ∷ e.files.sst_files };
        manifest = add_sst level meta e.manifest;
        sst_readers = e.sst_readers ++ ((meta, r) ∷ []);
      } in
      let new : Reads disk r (x ∷ rest) = record {
        table = t;
        sorted = sorted;
        same = λ i.
            ap (λ s. disk (record { sst_id = s; block_idx = i })) id
            ∙ on_disk contents r made opens i;
      } in
      (
        e',
        rw (write_table, made, opens) refl,
        record {
          meta = meta;
          id = refl;
          manifest = refl;
          holds = record {
            readers = rw (reverse-append e.sst_readers ((meta, r) ∷ [])) (new, h.readers);
            cache = h.cache;
          };
          memtable = refl;
          opts = refl;
          wal = refl;
          fresh = refl;
        },
      )
