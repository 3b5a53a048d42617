-- ===== src/Engine/Write/Sequence.antt =====
-- Writes of src/engine.rs one after the other, each one synced to the log.
use rust_kvdb.Prelude.{
  ℕ, ◌+◌, ◌≤◌, true, List, [], ◌∷◌, ◌++◌, ◌≡◌, refl, ap, ap₂, ◌∙◌, sym, arith, append_assoc,
  append-nil,
}
use rust_kvdb.Bytes.{Bytes}
use rust_kvdb.KvError.{ok}
use rust_kvdb.SortedMap
use rust_kvdb.SortedMap.{Entries}
use rust_kvdb.Wal.Record.{Record, encode}
use rust_kvdb.Wal.Writer.{WalWriter, open_append}
use rust_kvdb.Wal.Reader.Replay.{encode_all}
use rust_kvdb.Memtable.SkipList.Insert.{entry_cost}
use rust_kvdb.Memtable.MemTable.Holding.{Holding}
use rust_kvdb.Engine.{Engine, Step, done, ◌and_then◌, next_u64}
use rust_kvdb.Engine.Write.Run.{
  Op, key_of, stored, record_of, HasRoom, Stored, logged, request, run_op, run_op_lem,
}

-- The records of requests, the first with this sequence number.
abbrev pub records_of : ℕ → List Op → ℕ → List Record
records_of now [] seq = []
records_of now (op ∷ ops) seq = record_of now op seq ∷ records_of now ops (next_u64 seq)

-- What requests make of the memtable's map.
abbrev pub stored_map : ℕ → List Op → ℕ → Entries → Entries
stored_map now [] seq entries = entries
stored_map now (op ∷ ops) seq entries =
    stored_map now ops (next_u64 seq) (SortedMap.insert (key_of op) (stored now op seq) entries)

-- The most that requests add to the size of a list with this many levels.
abbrev pub total_cost : ℕ → ℕ → List Op → ℕ → ℕ
total_cost max_level now [] seq = 0
total_cost max_level now (op ∷ ops) seq =
    entry_cost max_level (key_of op) (stored now op seq)
    + total_cost max_level now ops (next_u64 seq)

-- An engine that syncs its log, with a memtable that holds these entries and has
-- room for so much more.
pub record IsReady (e : Engine) (entries : Entries) (max_level cost : ℕ) : Type 0 where
  pub holding : Holding e.memtable entries
  pub levels : e.memtable.active.max_level ≡ max_level
  pub room : e.memtable.active.size + cost ≤ e.memtable.max_size
  pub syncs : e.opts.sync_wal ≡ true

module _ (crc32 : Bytes → ℕ) (ln2_rounded : ℕ → ℕ) (in_buffer : WalWriter → ℕ)
    (now max_level : ℕ) where
  unfoldable pub run : List Op → Step
  unfolding request
  run [] = done
  run (op ∷ ops) = run_op crc32 ln2_rounded in_buffer now op and_then run ops

  run_op-IsReady :
      (op : Op) (e : Engine) (entries : Entries) (log : Bytes) (cost : ℕ)
      → IsReady e entries max_level
          (entry_cost max_level (key_of op) (stored now op e.next_seq) + cost)
      → e.wal ≡ open_append log
      → (e' : Engine) × (run_op crc32 ln2_rounded in_buffer now op e ≡ (e', ok tt))
        × IsReady e'
            (SortedMap.insert (key_of op) (stored now op e.next_seq) entries)
            max_level
            cost
        × (e'.wal ≡ open_append (log ++ encode crc32 (record_of now op e.next_seq)))
        × Stored (encode crc32 (record_of now op e.next_seq)) now op e entries e'
  unfolding open_append
  run_op-IsReady op e entries log cost r synced =
      let bytes = encode crc32 (record_of now op e.next_seq) in
      let fits : HasRoom now op e.next_seq e.memtable = rw r.levels (omega (arith, r.room)) in
      let (e', returns, x) =
        run_op_lem crc32 ln2_rounded in_buffer now op e entries r.holding fits in
      (
        e',
        returns,
        record {
          holding = x.grown.holding;
          levels = x.grown.levels ∙ r.levels;
          room = omega (arith, x.grown.size, x.grown.max_size, r.room, r.levels);
          syncs = ap (λ o. o.sync_wal) x.opts ∙ r.syncs;
        },
        x.wal ∙ ap₂ (λ b w. logged b bytes w) r.syncs synced,
        x,
      )

  -- What a run of requests leaves.
  pub record Ran (ops : List Op) (e : Engine) (entries : Entries) (log : Bytes) (e' : Engine)
      : Type 0 where
    pub holding : Holding e'.memtable (stored_map now ops e.next_seq entries)
    pub wal : e'.wal ≡ open_append (log ++ encode_all crc32 (records_of now ops e.next_seq))
    pub files : e'.files ≡ e.files
    pub readers : e'.sst_readers ≡ e.sst_readers
    pub block_cache : e'.block_cache ≡ e.block_cache

  -- Requests that the memtable has room for all succeed. Their records are in the log, synced, in
  -- this order, and their values in the memtable.
  pub run_lem :
      (ops : List Op) (e : Engine) (entries : Entries) (log : Bytes)
      → IsReady e entries max_level (total_cost max_level now ops e.next_seq)
      → e.wal ≡ open_append log
      → (e' : Engine) × (run ops e ≡ (e', ok tt)) × Ran ops e entries log e'
  unfolding run
  run_lem [] e entries log r synced = (
    e,
    refl,
    record {
      holding = r.holding;
      wal = synced ∙ ap open_append (sym (append-nil log));
      files = refl;
      readers = refl;
      block_cache = refl;
    },
  )
  run_lem (op ∷ ops) e entries log r synced =
      let bytes = encode crc32 (record_of now op e.next_seq) in
      let seq' = next_u64 e.next_seq in
      let entries' = SortedMap.insert (key_of op) (stored now op e.next_seq) entries in
      let (e1, first, r1, synced1, x) = run_op-IsReady op e entries log _ r synced in
      let r2 : IsReady e1 entries' max_level (total_cost max_level now ops e1.next_seq) =
        rw x.next_seq r1 in
      let (e', later, y) = run_lem ops e1 entries' (log ++ bytes) r2 synced1 in
      let holding : Holding e'.memtable (stored_map now ops seq' entries') =
        rw x.next_seq at y.holding in
      let wal : e'.wal
          ≡ open_append ((log ++ bytes) ++ encode_all crc32 (records_of now ops seq')) =
        rw x.next_seq at y.wal in
      (
        e',
        rw (first, later) refl,
        record {
          holding = holding;
          wal =
              wal
              ∙ ap open_append
                  (append_assoc log bytes (encode_all crc32 (records_of now ops seq')));
          files = y.files ∙ x.files;
          readers = y.readers ∙ x.readers;
          block_cache = y.block_cache ∙ x.block_cache;
        },
      )
