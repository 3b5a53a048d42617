-- ===== src/Engine/Write/Run.antt =====
-- The writes of src/engine.rs when the log takes them and the memtable has room.
use rust_kvdb.Prelude.{
  ℕ, ◌+◌, ◌%◌, ◌^◌, ◌≤◌, Bool, true, false, none, some, [], ◌++◌, ◌≡◌, refl, ap, ◌∙◌,
}
use rust_kvdb.Bytes.{Bytes}
use rust_kvdb.KvError.{ok}
use rust_kvdb.SortedMap.{Entries}
use rust_kvdb.Wal.Record.{OpType, Record, encode}
use rust_kvdb.Wal.Writer
use rust_kvdb.Wal.Writer.{WalWriter, Write, Sync, append_record}
use rust_kvdb.Memtable.SkipList.{xorshift}
use rust_kvdb.Memtable.SkipList.Insert.{entry_cost}
use rust_kvdb.Memtable.MemTable
use rust_kvdb.Memtable.MemTable.{MemTable, take_immutable}
use rust_kvdb.Memtable.MemTable.Holding.{Holding, Grown, put-Holding}
use rust_kvdb.Engine.{Engine, Step, ◌and_then◌, next_u64}
use rust_kvdb.Engine.Value.{tombstone, encode_with_seq, encode_ttl}
use rust_kvdb.Engine.Flush.{maybe_flush, flush_taken}
use rust_kvdb.Engine.Write as EngineWrite
use rust_kvdb.Engine.Write.{on_wal, sync_if, memtable_put, take_seq, count_write, count_delete}

-- A request to write, with the time to live in seconds.
pub data Op : Type 0 where
  put : Bytes → Bytes → Op
  put_with_ttl : Bytes → Bytes → ℕ → Op
  delete : Bytes → Op

abbrev pub key_of : Op → Bytes
key_of (put key value) = key
key_of (put_with_ttl key value ttl) = key
key_of (delete key) = key

-- What is stored behind the sequence number, at this time.
abbrev pub inner_of : ℕ → Op → Bytes
inner_of now (put key value) = value
inner_of now (put_with_ttl key value ttl) = encode_ttl value ((now + ttl) % 2 ^ 64)
inner_of now (delete key) = tombstone

abbrev pub stored : ℕ → Op → ℕ → Bytes
stored now op seq = encode_with_seq (inner_of now op) seq

abbrev type_of : Op → OpType
type_of (put key value) = OpType.put
type_of (put_with_ttl key value ttl) = OpType.put
type_of (delete key) = OpType.delete

-- The record of the log for a request with this sequence number.
abbrev pub record_of : ℕ → Op → ℕ → Record
record_of now op seq = record { op = type_of op; key = key_of op; value = stored now op seq }

abbrev count : Op → Step
count (put key value) = count_write
count (put_with_ttl key value ttl) = count_write
count (delete key) = count_delete

-- A log behind a write of these bytes, with or without a sync.
abbrev pub logged : Bool → Bytes → WalWriter → WalWriter
logged true bytes w = record { synced = w.synced ++ (w.pending ++ bytes); pending = [] }
logged false bytes w = record w { pending = w.pending ++ bytes }

-- The memtable has room for what the request stores.
abbrev pub HasRoom : ℕ → Op → ℕ → MemTable → Type 0
HasRoom now op seq m =
    m.active.size + entry_cost m.active.max_level (key_of op) (stored now op seq) ≤ m.max_size

-- The state that a write leaves.
pub record Stored (bytes : Bytes) (now : ℕ) (op : Op) (e : Engine) (entries : Entries) (e' : Engine)
    : Type 0 where
  pub grown : Grown (key_of op) (stored now op e.next_seq) e.memtable entries e'.memtable
  pub wal : e'.wal ≡ logged e.opts.sync_wal bytes e.wal
  pub next_seq : e'.next_seq ≡ next_u64 e.next_seq
  pub opts : e'.opts ≡ e.opts
  pub files : e'.files ≡ e.files
  pub readers : e'.sst_readers ≡ e.sst_readers
  pub block_cache : e'.block_cache ≡ e.block_cache

module _ (crc32 : Bytes → ℕ) (ln2_rounded : ℕ → ℕ) (in_buffer : WalWriter → ℕ) (now : ℕ) where
  -- A request, with what the system makes of the write and of the sync of the log.
  unfoldable pub request : Write → Sync → Op → Step
  unfolding EngineWrite.put EngineWrite.put_with_ttl EngineWrite.delete
  request w s (put key value) = EngineWrite.put crc32 ln2_rounded in_buffer w s now key value
  request w s (put_with_ttl key value ttl) =
      EngineWrite.put_with_ttl crc32 ln2_rounded in_buffer w s now key value ttl
  request w s (delete key) = EngineWrite.delete crc32 ln2_rounded in_buffer w s now key

  -- A request, with a log that takes every write.
  abbrev pub run_op : Op → Step
  run_op op = request Write.done Sync.done op

  maybe_flush-unfrozen :
      (e : Engine)
      → e.memtable.immutable ≡ none
      → maybe_flush ln2_rounded in_buffer now e ≡ (e, ok tt)
  unfolding maybe_flush take_immutable
  maybe_flush-unfrozen e unfrozen =
      ap (λ i. flush_taken ln2_rounded in_buffer now (record e.memtable { immutable = none }) i e)
        unfrozen

  -- What the steps of a request make of the state, up to the flush.
  abbrev written : Bool → Op → Engine → ℕ × MemTable → Engine
  written sync op e p = record e {
    metrics = (count op e).0.metrics;
    wal = logged sync (encode crc32 (record_of now op e.next_seq)) e.wal;
    memtable = p.1;
    random = p.0;
    next_seq = next_u64 e.next_seq;
  }

  written-Stored :
      (op : Op) (e : Engine) (entries : Entries) (m' : MemTable)
      → Grown (key_of op) (stored now op e.next_seq) e.memtable entries m'
      → Stored
          (encode crc32 (record_of now op e.next_seq))
          now
          op
          e
          entries
          (written e.opts.sync_wal op e (xorshift e.random, m'))
  written-Stored op e entries m' grown = record {
    grown = grown;
    wal = refl;
    next_seq = refl;
    opts = refl;
    files = refl;
    readers = refl;
    block_cache = refl;
  }

  -- The steps of a request; whether the log is synced is an argument here.
  unfoldable pub steps : Write → Sync → Bool → Op → Step
  unfolding memtable_put
  steps w s sync op e =
      let r = record_of now op e.next_seq in
      (take_seq
          and_then on_wal (λ log. append_record crc32 w log r)
          and_then sync_if sync s
          and_then memtable_put r.key r.value
          and_then count op
          and_then maybe_flush ln2_rounded in_buffer now)
        e

  steps_lem :
      (sync : Bool) (op : Op) (e : Engine) (p : ℕ × MemTable)
      → MemTable.put e.random (key_of op) (stored now op e.next_seq) e.memtable ≡ some p
      → steps Write.done Sync.done sync op e
        ≡ maybe_flush ln2_rounded in_buffer now (written sync op e p)
  unfolding steps memtable_put append_record Writer.flush
  steps_lem true (put key value) e p h = rw h refl
  steps_lem true (put_with_ttl key value ttl) e p h = rw h refl
  steps_lem true (delete key) e p h = rw h refl
  steps_lem false (put key value) e p h = rw h refl
  steps_lem false (put_with_ttl key value ttl) e p h = rw h refl
  steps_lem false (delete key) e p h = rw h refl

  pub request-steps :
      (w : Write) (s : Sync) (op : Op) (e : Engine)
      → request w s op e ≡ steps w s e.opts.sync_wal op e
  unfolding request steps EngineWrite.put EngineWrite.put_with_ttl EngineWrite.delete
      EngineWrite.put_inner Writer.append append_record
  request-steps w s (put key value) e = refl
  request-steps w s (put_with_ttl key value ttl) e = refl
  request-steps w s (delete key) e = refl

  -- A request that the memtable has room for succeeds. Its record is in the log, its key in the
  -- memtable, and the tables are as they were.
  pub run_op_lem :
      (op : Op) (e : Engine) (entries : Entries)
      → Holding e.memtable entries
      → HasRoom now op e.next_seq e.memtable
      → (e' : Engine) × (run_op op e ≡ (e', ok tt))
        × Stored (encode crc32 (record_of now op e.next_seq)) now op e entries e'
  run_op_lem op e entries h room =
      let (m', stores, grown) =
        put-Holding e.random (key_of op) (stored now op e.next_seq) e.memtable entries h room in
      let e' = written e.opts.sync_wal op e (xorshift e.random, m') in
      (
        e',
        request-steps Write.done Sync.done op e
            ∙ steps_lem e.opts.sync_wal op e (xorshift e.random, m') stores
            ∙ maybe_flush-unfrozen e' grown.holding.unfrozen,
        written-Stored op e entries m' grown,
      )
