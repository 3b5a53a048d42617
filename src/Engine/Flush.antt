-- ===== src/Engine/Flush.antt =====
-- Flushing the frozen memtable to a table, and compaction, of src/engine.rs. `ln2_rounded` is the
-- parameter of the Bloom filter, and `in_buffer` says how many of the last pending bytes of a log
-- its `BufWriter` still holds. Sizes and powers stay far below 2^64.
pub mod Tables
pub mod Write
pub mod Frozen
pub mod Unchanged
use rust_kvdb.Prelude.{
  ℕ, zero, suc, ◌+◌, ◌-◌, ◌*◌, ◌^◌, ◌==◌, ltb, if◌then◌else◌, not, Bool, false, ◌&&◌, Option, none,
  some, List, [], ◌∷◌, ◌++◌, length, map, drop,
}
use mathlib.Core.List.{get_last?}
use rust_kvdb.Bytes.{Bytes}
use rust_kvdb.Bytes.Order.{bytes_lt}
use rust_kvdb.KvError.{Result, ok, err, panic, ◌>>=◌}
use rust_kvdb.SortedMap.{Entries}
use rust_kvdb.Wal.Writer.{WalWriter, open_append}
use rust_kvdb.Manifest
use rust_kvdb.Manifest.{SstMeta, sst_meta, ssts_at_level, add_sst, remove_sst}
use rust_kvdb.Memtable.SkipList
use rust_kvdb.Memtable.SkipList.{SkipList}
use rust_kvdb.Memtable.MemTable.{MemTable, insert_all, take_immutable}
use rust_kvdb.Cache.{BlockCache}
use rust_kvdb.Sstable.Builder
use rust_kvdb.Sstable.Builder.{SstableBuilder}
use rust_kvdb.Sstable.Reader
use rust_kvdb.Sstable.Reader.{SstableReader, open_with_cache}
use rust_kvdb.Engine.{Engine, Step, done, on_ok, ◌and_then◌, of_fault, retain}
use rust_kvdb.Engine.Value.{decode_with_seq}
use rust_kvdb.Engine.Read.{is_live}

-- `for (k, v) in &entries { builder.add(k, v)?; }`
unfoldable pub add_entries : Entries → SstableBuilder → Result SstableBuilder
unfolding Builder.add
add_entries [] b = ok b
add_entries ((k, v) ∷ entries) b = do b' ← Builder.add k v b; add_entries entries b'

-- `manifest.save(..)`
unfoldable pub save_manifest : Step
unfolding Manifest.encode
save_manifest e =
    done (record e { files = record e.files { manifest_file = some (Manifest.encode e.manifest) } })

-- `reset_wal`: the file is cut to nothing and opened again. The assignment drops the old writer only
-- then, and its buffer, as many of the last pending bytes as `in_buffer` says, goes to the file.
unfoldable pub reset_wal : (WalWriter → ℕ) → Step
unfolding open_append
reset_wal in_buffer e =
    let p = e.wal.pending in
    done
      (record e { wal = record (open_append []) { pending = drop (length p - in_buffer e.wal) p } })

-- The first and the last key of entries; the `unwrap` of none panics.
abbrev key_range : Entries → Result (Bytes × Bytes)
key_range [] = panic
key_range (x ∷ entries) = elim (get_last? (x ∷ entries)) [ none ↦ panic | some y ↦ ok (x.0, y.0) ]

-- `min()` and `max()` of keys
unfoldable pub min_key : List Bytes → Option Bytes
min_key [] = none
min_key (k ∷ ks) = elim (min_key ks) [
  | none ↦ some k
  | some l ↦ some (if bytes_lt l k then l else k)
]

unfoldable pub max_key : List Bytes → Option Bytes
max_key [] = none
max_key (k ∷ ks) = elim (max_key ks) [
  | none ↦ some k
  | some l ↦ some (if bytes_lt l k then k else l)
]

-- `sst_readers.iter().find(|(m, _)| m.id == id)`
unfoldable pub find_reader : ℕ → List (SstMeta × SstableReader) → Option SstableReader
find_reader id [] = none
find_reader id ((m, reader) ∷ readers) = if m.id == id then some reader else find_reader id readers

-- The loop over the ids whose entries are merged; a later entry overwrites an earlier one.
unfoldable pub merge_tables :
    List (SstMeta × SstableReader)
    → List ℕ
    → Entries
    → Option BlockCache
    → Option BlockCache × Result Entries
unfolding find_reader Reader.iter
merge_tables readers [] m cache = (cache, ok m)
merge_tables readers (id ∷ ids) m cache = elim (find_reader id readers) [
  | none ↦ merge_tables readers ids m cache
  | some reader ↦
      let (cache', entries) = Reader.iter reader cache in
      elim entries [
        | ok es ↦ merge_tables readers ids (insert_all m es) cache'
        | err x ↦ (cache', err x)
        | panic ↦ (cache', panic)
      ]
]

-- `value` of a merged entry that compaction keeps
unfoldable pub keep_entry : ℕ → Bytes × Bytes → Bool
unfolding is_live decode_with_seq
keep_entry now e = elim (decode_with_seq e.1) [ none ↦ false | some p ↦ is_live now e.1 ]

-- One table that was merged goes out of the manifest, the readers and the directory.
unfoldable pub drop_table : ℕ → Engine → Engine
unfolding remove_sst retain
drop_table id e = record e {
  manifest = (remove_sst id e.manifest).0;
  sst_readers = retain (λ r. not (r.0.id == id)) e.sst_readers;
  files = record e.files { sst_files = retain (λ f. not (f.0 == id)) e.files.sst_files };
}

abbrev drop_tables : List ℕ → Engine → Engine
drop_tables [] e = e
drop_tables (id ∷ ids) e = drop_tables ids (drop_table id e)

-- `m.max_key >= global_min && m.min_key <= global_max`
abbrev pub overlaps : Bytes → Bytes → SstMeta → Bool
overlaps global_min global_max m =
    not (bytes_lt m.max_key global_min) && not (bytes_lt global_max m.min_key)

module _ (ln2_rounded : ℕ → ℕ) where
  -- A new table at a level, with these entries: its file, its place in the manifest, its reader.
  unfoldable pub write_table : ℕ → Entries → Step
  unfolding add_entries Builder.finish Builder.new open_with_cache add_sst
  write_table level entries e0 =
      let sst_id = e0.next_sst_id in
      let e = record e0 { next_sst_id = sst_id + 1 } in
      let file = (do
        b ← add_entries entries (Builder.new e.opts.block_size)
        Builder.finish ln2_rounded b) in
      on_ok
        (λ contents e1.
          on_ok
            (λ range e2.
              on_ok
                (λ reader e3.
                  let meta = sst_meta sst_id level range.0 range.1 in
                  done (record e3 {
                    manifest = add_sst level meta e3.manifest;
                    sst_readers = e3.sst_readers ++ ((meta, reader) ∷ []);
                  }))
                e2 (open_with_cache contents sst_id))
            (record e1 {
              files = record e1.files { sst_files = (sst_id, contents) ∷ e1.files.sst_files };
            })
            (key_range entries))
        e file

  -- The tables of a level, with those of the next one that overlap them, become one table there.
  -- `now` is the time that the operation reads.
  unfoldable pub compact_level : ℕ → ℕ → Step
  unfolding ssts_at_level min_key max_key retain merge_tables keep_entry write_table save_manifest
  compact_level now src_level e =
      let dst_level = suc src_level in
      let src_metas = ssts_at_level e.manifest src_level in
      on_ok
        (λ global_min e0.
          on_ok
            (λ global_max e1.
              let dst_metas =
                retain (overlaps global_min global_max) (ssts_at_level e1.manifest dst_level) in
              let src_ids = map (λ (m : SstMeta). m.id) src_metas in
              let dst_ids = map (λ (m : SstMeta). m.id) dst_metas in
              let (cache, merged) =
                merge_tables e1.sst_readers (dst_ids ++ src_ids) [] e1.block_cache in
              on_ok
                (λ all.
                  let kept = retain (keep_entry now) all in
                  (elim kept [ [] ↦ done | x ∷ rest ↦ write_table dst_level (x ∷ rest) ])
                  and_then (λ e2. save_manifest (drop_tables (src_ids ++ dst_ids) e2))
                  and_then (λ e3. done (record e3 {
                    metrics = record e3.metrics { compactions = e3.metrics.compactions + 1 };
                  })))
                (record e1 { block_cache = cache }) merged)
            e0 (of_fault (max_key (map (λ (m : SstMeta). m.max_key) src_metas))))
        e (of_fault (min_key (map (λ (m : SstMeta). m.min_key) src_metas)))

  -- `for level in 0..max_levels - 1`, with as many levels left, from `level` on
  unfoldable pub compact_levels : ℕ → ℕ → ℕ → Step
  unfolding compact_level ssts_at_level
  compact_levels now zero level e = done e
  compact_levels now (suc n) level e =
      let threshold = e.opts.l0_compaction_threshold * 10 ^ level in
      let rest = compact_levels now n (suc level) in
      if ltb (length (ssts_at_level e.manifest level)) threshold
      then rest e
      else (compact_level now level and_then rest) e

  unfoldable pub maybe_compact : ℕ → Step
  unfolding compact_levels
  maybe_compact now e = compact_levels now (e.opts.max_levels - 1) 0 e

  module _ (in_buffer : WalWriter → ℕ) where
    -- The flush of a frozen list that was taken out; nothing is written if it has no entry.
    abbrev flush_list : ℕ → SkipList → Step
    flush_list now imm e =
        on_ok
          (λ entries. elim entries [
            | [] ↦ λ e1. done (record e1 { next_sst_id = e1.next_sst_id + 1 })
            | x ∷ rest ↦
                write_table 0 (x ∷ rest)
                and_then save_manifest
                and_then reset_wal in_buffer
                and_then (λ e1. done (record e1 {
                  metrics = record e1.metrics { flushes = e1.metrics.flushes + 1 };
                }))
                and_then maybe_compact now
          ])
          e (of_fault (SkipList.iter imm))

    -- `if let Some(imm) = self.memtable.take_immutable()`, with the memtable behind the call
    abbrev pub flush_taken : ℕ → MemTable → Option SkipList → Step
    flush_taken now memtable none e = done e
    flush_taken now memtable (some imm) e = flush_list now imm (record e { memtable = memtable })

    unfoldable pub maybe_flush : ℕ → Step
    unfolding take_immutable SkipList.iter write_table save_manifest reset_wal maybe_compact
    maybe_flush now e =
        let (memtable, taken) = take_immutable e.memtable in flush_taken now memtable taken e
