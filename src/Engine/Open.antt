-- ===== src/Engine/Open.antt =====
-- Opening and repairing a directory, of src/engine.rs. The log is the file `000001.wal`, which is
-- the only one that the engine creates.
pub mod Recovery
pub mod Reopen
use rust_kvdb.Prelude.{
  ℕ, zero, suc, ◌+◌, ◌==◌, ltb, leb, if◌then◌else◌, Option, none, some, List, [], ◌∷◌, ◌++◌, length,
}
use rust_kvdb.Bytes.{Bytes}
use rust_kvdb.KvError.{Result, ok, err, panic, ◌>>=◌}
use rust_kvdb.Wal.Record.{OpType, Record}
use rust_kvdb.Wal.Reader.{WalReader, Next, next, end, item}
use rust_kvdb.Wal.Reader.Replay.{reader}
use rust_kvdb.Wal.Writer.{open_append}
use rust_kvdb.KvError.{io}
use rust_kvdb.Manifest
use rust_kvdb.Manifest.{SstMeta, Manifest, sst_meta, add_sst}
use rust_kvdb.Memtable.MemTable
use rust_kvdb.Memtable.MemTable.{MemTable}
use rust_kvdb.Cache
use rust_kvdb.Cache.{BlockCache}
use rust_kvdb.Sstable.Reader.{SstableReader, open_with_cache}
use rust_kvdb.Engine.{Engine, Files, Options, no_metrics, of_fault}
use rust_kvdb.Engine.Value.{tombstone}

-- The file of a table, if it exists.
unfoldable pub find_file : ℕ → List (ℕ × Bytes) → Option Bytes
find_file id [] = none
find_file id ((i, contents) ∷ files) = if i == id then some contents else find_file id files

-- The readers and the next id, over the tables of one level.
unfoldable pub open_level :
    List (ℕ × Bytes)
    → List SstMeta
    → ℕ
    → List (SstMeta × SstableReader)
    → Result (ℕ × List (SstMeta × SstableReader))
unfolding find_file open_with_cache
open_level files [] next_id readers = ok (next_id, readers)
open_level files (meta ∷ metas) next_id readers = elim (find_file meta.id files) [
  | none ↦ open_level files metas next_id readers
  | some contents ↦ elim (open_with_cache contents meta.id) [
    | ok opened ↦
        open_level files metas (if leb next_id meta.id then meta.id + 1 else next_id)
          (readers ++ ((meta, opened) ∷ []))
    | err x ↦ err x
    | panic ↦ panic
  ]
]

unfoldable pub open_levels :
    List (ℕ × Bytes)
    → List (List SstMeta)
    → ℕ
    → List (SstMeta × SstableReader)
    → Result (ℕ × List (SstMeta × SstableReader))
unfolding open_level
open_levels files [] next_id readers = ok (next_id, readers)
open_levels files (level ∷ levels) next_id readers = elim (open_level files level next_id readers) [
  | ok p ↦ open_levels files levels p.0 p.1
  | err x ↦ err x
  | panic ↦ panic
]

abbrev pub replayed_value : Record → Bytes
replayed_value r = elim r.op [ OpType.put ↦ r.value | OpType.delete ↦ tombstone ]

-- A round of the loop of `replay_wal`, with the generator's state.
unfoldable pub replay_record : ℕ × MemTable → Record → Result (ℕ × MemTable)
unfolding MemTable.put_no_freeze
replay_record p r = of_fault (MemTable.put_no_freeze p.0 r.key (replayed_value r) p.1)

module _ (crc32 : Bytes → ℕ) where
  -- The loop; each record takes four bytes at least, so the length of the file is enough fuel.
  unfoldable pub replay_loop : ℕ → WalReader → ℕ × MemTable → Result (ℕ × MemTable)
  unfolding next replay_record
  replay_loop zero r p = panic
  replay_loop (suc fuel) r p = elim (next crc32 r) [
    | end ↦ ok p
    | Next.failed e ↦ err (io e)
    | item (ok entry) r' ↦ elim (replay_record p entry) [
      | ok p' ↦ replay_loop fuel r' p'
      | err e ↦ err e
      | panic ↦ panic
    ]
    | item (err e) r' ↦ err e
    | item panic r' ↦ panic
  ]

  -- `replay_wal`, from the file's contents, if it exists
  unfoldable pub replay_wal : ℕ → Option Bytes → ℕ → Result (ℕ × MemTable)
  unfolding replay_loop MemTable.with_max_size
  replay_wal v wal memtable_size = do
    memtable ← of_fault (MemTable.with_max_size memtable_size)
    elim wal [
      | none ↦ ok (v, memtable)
      | some contents ↦ replay_loop (suc (length contents)) (reader contents none) (v, memtable)
    ]

  unfoldable pub open_with_options : Options → ℕ → Files → Option Bytes → Result Engine
  unfolding Manifest.load open_levels replay_wal open_append
  open_with_options opts v files wal = do
    manifest ← Manifest.load files.manifest_file
    (next_sst_id, readers) ← open_levels files.sst_files manifest.levels 1 []
    (random, memtable) ← replay_wal v wal opts.memtable_size
    ok (record {
      files = files;
      wal = open_append (elim wal [ none ↦ [] | some contents ↦ contents ]);
      memtable = memtable;
      manifest = manifest;
      sst_readers = readers;
      next_sst_id = next_sst_id;
      next_seq = 1;
      opts = opts;
      metrics = no_metrics;
      block_cache =
          if ltb 0 opts.block_cache_size then some (Cache.new opts.block_cache_size) else none;
      random = random;
    })

pub record RepairReport : Type 0 where
  pub corrupted_files : ℕ
  pub recovered_ssts : ℕ

-- `repair` over the tables of the directory, in the order that it lists them: the new manifest,
-- the files that remain, and the report. A file that panics the reader ends the repair.
unfoldable pub repair_files :
    List (ℕ × Bytes)
    → Manifest
    → List (ℕ × Bytes)
    → RepairReport
    → Result (Manifest × List (ℕ × Bytes) × RepairReport)
unfolding open_with_cache add_sst
repair_files [] m kept report = ok (m, kept, report)
repair_files ((id, contents) ∷ files) m kept report = elim (open_with_cache contents 0) [
  | ok opened ↦
      repair_files files (add_sst 0 (sst_meta id 0 [] []) m) (kept ++ ((id, contents) ∷ []))
        (record report { recovered_ssts = report.recovered_ssts + 1 })
  | err x ↦
      repair_files files m kept (record report { corrupted_files = report.corrupted_files + 1 })
  | panic ↦ panic
]

-- `repair`: the directory behind it, its log, and the report
unfoldable pub repair : Files → Option Bytes → Result (Files × Option Bytes × RepairReport)
unfolding repair_files Manifest.encode
repair files wal = do
  (m, kept, report) ←
      repair_files files.sst_files Manifest.empty []
        (record { corrupted_files = 0; recovered_ssts = 0 })
  ok (
    record { manifest_file = some (Manifest.encode m); sst_files = kept },
    (elim wal [ none ↦ none | some contents ↦ some [] ]),
    report,
  )
