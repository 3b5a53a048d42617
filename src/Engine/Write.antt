-- ===== src/Engine/Write.antt =====
-- The writes of src/engine.rs. `Write` and `Sync` are what the system makes of the writes and of
-- the sync of the log; `now` is the time that the operation reads.
pub mod Run
pub mod Gets
pub mod Sequence
pub mod Failure
pub mod Snapshots
use rust_kvdb.Prelude.{ℕ, ◌+◌, ◌%◌, ◌^◌, if◌then◌else◌, Bool, true, false, none, some, [], ◌∷◌}
use rust_kvdb.Bytes.{Bytes}
use rust_kvdb.KvError.{Result, ok, panic}
use rust_kvdb.Wal.Record.{OpType}
use rust_kvdb.Wal.Writer.{WalWriter, Write, Sync, append, append_record}
use rust_kvdb.Wal.Writer
use rust_kvdb.Memtable.MemTable
use rust_kvdb.WriteBatch.{BatchOp, WriteBatch, is_empty}
use rust_kvdb.Engine.{Step, done, ◌and_then◌, next_u64}
use rust_kvdb.Engine.Value.{tombstone, encode_with_seq, encode_ttl}
use rust_kvdb.Engine.Flush.{maybe_flush, save_manifest}

-- A call of the log.
abbrev pub on_wal : (WalWriter → WalWriter × Result (Unit {0})) → Step
on_wal call e = let p = call e.wal in (record e { wal = p.0 }, p.1)

abbrev pub sync_if : Bool → Sync → Step
sync_if true s = on_wal (Writer.flush s)
sync_if false s = done

unfoldable pub memtable_put : Bytes → Bytes → Step
unfolding MemTable.put
memtable_put key value e = elim (MemTable.put e.random key value e.memtable) [
  | none ↦ (e, panic)
  | some p ↦ (record e { random = p.0; memtable = p.1 }, ok tt)
]

abbrev pub count_write : Step
count_write e = done (record e { metrics = record e.metrics { writes = e.metrics.writes + 1 } })

abbrev pub count_delete : Step
count_delete e = done (record e { metrics = record e.metrics { deletes = e.metrics.deletes + 1 } })

abbrev pub take_seq : Step
take_seq e = done (record e { next_seq = next_u64 e.next_seq })

module _ (crc32 : Bytes → ℕ) (ln2_rounded : ℕ → ℕ) (in_buffer : WalWriter → ℕ) where
  -- `put`, from the bytes that are to be stored behind the sequence number
  unfoldable pub put_inner : Write → Sync → ℕ → Bytes → Bytes → Step
  unfolding memtable_put append Writer.flush encode_with_seq maybe_flush
  put_inner w s now key value e =
      let encoded = encode_with_seq value e.next_seq in
      (take_seq
          and_then on_wal (λ log. append crc32 w log key encoded)
          and_then sync_if e.opts.sync_wal s
          and_then memtable_put key encoded
          and_then count_write
          and_then maybe_flush ln2_rounded in_buffer now)
        e

  unfoldable pub put : Write → Sync → ℕ → Bytes → Bytes → Step
  unfolding put_inner
  put w s now key value = put_inner w s now key value

  -- `put_with_ttl`; `ttl` is in seconds. The sum wraps, as in a release build; in a debug build it
  -- panics instead, before anything is changed.
  unfoldable pub put_with_ttl : Write → Sync → ℕ → Bytes → Bytes → ℕ → Step
  unfolding put_inner encode_ttl
  put_with_ttl w s now key value ttl =
      put_inner w s now key (encode_ttl value ((now + ttl) % 2 ^ 64))

  unfoldable pub delete : Write → Sync → ℕ → Bytes → Step
  unfolding memtable_put append_record Writer.flush encode_with_seq maybe_flush
  delete w s now key e =
      let encoded = encode_with_seq tombstone e.next_seq in
      (take_seq
          and_then on_wal (λ log.
            append_record crc32 w log (record { op = OpType.delete; key = key; value = encoded }))
          and_then sync_if e.opts.sync_wal s
          and_then memtable_put key encoded
          and_then count_delete
          and_then maybe_flush ln2_rounded in_buffer now)
        e

  -- One operation of a batch goes to the log.
  unfoldable pub log_op : Write → BatchOp → Step
  unfolding append append_record
  log_op w (BatchOp.put key value) = on_wal (λ log. append crc32 w log key value)
  log_op w (BatchOp.delete key) =
      on_wal
        (λ log. append_record crc32 w log (record { op = OpType.delete; key = key; value = [] }))

  -- The outcomes are those of the writes, one for each operation.
  unfoldable pub log_ops : (ℕ → Write) → ℕ → WriteBatch → Step
  unfolding log_op
  log_ops outcomes i [] = done
  log_ops outcomes i (op ∷ ops) = log_op (outcomes i) op and_then log_ops outcomes (i + 1) ops

  abbrev pub apply_op : BatchOp → Step
  apply_op (BatchOp.put key value) = memtable_put key value
  apply_op (BatchOp.delete key) = memtable_put key tombstone

  unfoldable pub apply_ops : WriteBatch → Step
  unfolding memtable_put
  apply_ops [] = done
  apply_ops (op ∷ ops) = apply_op op and_then apply_ops ops

  unfoldable pub write_batch : (ℕ → Write) → Sync → ℕ → WriteBatch → Step
  unfolding log_ops apply_ops Writer.flush maybe_flush
  write_batch outcomes s now batch =
      if is_empty batch
      then done
      else (log_ops outcomes 0 batch
          and_then on_wal (Writer.flush s)
          and_then apply_ops batch
          and_then maybe_flush ln2_rounded in_buffer now)

  abbrev freeze_memtable : Step
  freeze_memtable e = elim (MemTable.freeze e.memtable) [
    | none ↦ (e, panic)
    | some p ↦ done (record e { memtable = p.0 })
  ]

  unfoldable pub close : Sync → ℕ → Step
  unfolding MemTable.freeze Writer.flush maybe_flush save_manifest
  close s now =
      maybe_flush ln2_rounded in_buffer now
      and_then freeze_memtable
      and_then maybe_flush ln2_rounded in_buffer now
      and_then on_wal (Writer.flush s)
      and_then save_manifest
