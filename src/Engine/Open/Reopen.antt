-- ===== src/Engine/Open/Reopen.antt =====
-- Opening a directory again, of src/engine.rs, after writes and a crash.
use rust_kvdb.Prelude.{
  ℕ, ◌+◌, ◌≤◌, ◌<◌, ◌^◌, ltb, if◌then◌else◌, Bool, true, false, Option, none, some, List, [], ◌∷◌,
  ◌++◌, ◌≡◌, refl, ap, ap₂, ◌∙◌, sym, arith, All, append-nil,
}
use mathlib.Core.Option.{map}
use rust_kvdb.Bytes.{Bytes}
use rust_kvdb.Bytes.Order.{bytes_eq, compare_bytes}
use rust_kvdb.KvError.{ok}
use rust_kvdb.SortedMap.{Entries, lookup}
use rust_kvdb.SortedMap.Laws.{lookup-insert}
use rust_kvdb.Wal.Crash.{nothing_left}
use rust_kvdb.Wal.Reader.Replay.{IsReadable, encode_all}
use rust_kvdb.Wal.Writer.{WalWriter, open_append}
use rust_kvdb.Manifest
use rust_kvdb.Memtable.Node.{size_of_skip_list}
use rust_kvdb.Memtable.MemTable.{MemTable}
use rust_kvdb.Memtable.MemTable.Writes.{with_max_size-IsValid}
use rust_kvdb.Cache
use rust_kvdb.Sstable.Reader.{Search}
use rust_kvdb.Engine.{Engine, Files, Options, no_metrics, next_u64}
use rust_kvdb.Engine.Value.{unpack_value}
use rust_kvdb.Engine.Value.Laws.{unpack_value-tombstone}
use rust_kvdb.Engine.Read.{get}
use rust_kvdb.Engine.Write.Run.{Op, put, put_with_ttl, delete, key_of, stored, record_of}
use rust_kvdb.Engine.Write.Gets.{answer, answer_same, get-Holding}
use rust_kvdb.Engine.Write.Sequence.{records_of, stored_map, total_cost, IsReady, run, run_lem}
use rust_kvdb.Engine.Open.{replayed_value, replay_wal, open_with_options}
use rust_kvdb.Engine.Open.Recovery.{replay_map, replay_wal_lem}

-- What `get` makes of what is stored.
abbrev unpacked : ℕ → Option Bytes → Option (Option Bytes)
unpacked later held = map (unpack_value later) held

replayed-stored :
    (later now seq : ℕ) (op : Op)
    → seq < 2 ^ 64
    → unpack_value later (stored now op seq)
      ≡ unpack_value later (replayed_value (record_of now op seq))
unfolding unpack_value compare_bytes
replayed-stored later now seq (put key value) lt = refl
replayed-stored later now seq (put_with_ttl key value ttl) lt = refl
replayed-stored later now seq (delete key) lt = unpack_value-tombstone later seq lt

unpacked-if :
    (b : Bool) (later : ℕ) (v w : Bytes) (held kept : Option Bytes)
    → unpack_value later v ≡ unpack_value later w
    → unpacked later held ≡ unpacked later kept
    → unpacked later (if b then some v else held) ≡ unpacked later (if b then some w else kept)
unpacked-if true later v w held kept same rest = ap some same
unpacked-if false later v w held kept same rest = rest

-- A replay of the records of requests makes a map that reads like the one they were put into.
replay_map-stored_map :
    (later now : ℕ) (ops : List Op) (seq : ℕ) (m n : Entries)
    → seq < 2 ^ 64
    → ((key : Bytes) → unpacked later (lookup key m) ≡ unpacked later (lookup key n))
    → (key : Bytes)
    → unpacked later (lookup key (stored_map now ops seq m))
      ≡ unpacked later (lookup key (replay_map n (records_of now ops seq)))
replay_map-stored_map later now [] seq m n lt same key = same key
replay_map-stored_map later now (op ∷ ops) seq m n lt same key =
    let v = stored now op seq in
    let w = replayed_value (record_of now op seq) in
    replay_map-stored_map later now ops (next_u64 seq) _ _ (omega arith)
      (λ j.
        ap (unpacked later) (lookup-insert (key_of op) j v m)
        ∙ unpacked-if (bytes_eq (key_of op) j) later v w (lookup j m) (lookup j n)
            (replayed-stored later now seq op lt) (same j)
        ∙ ap (unpacked later) (sym (lookup-insert (key_of op) j w n)))
      key

-- A directory in which there is no table yet.
abbrev pub no_files : Files
no_files = record { manifest_file = none; sst_files = [] }

module _ (crc32 : Bytes → ℕ) (opts : Options) where
  -- The engine over such a directory, with this log.
  abbrev opened : Bytes → ℕ × MemTable → Engine
  opened log p = record {
    files = no_files;
    wal = open_append log;
    memtable = p.1;
    manifest = Manifest.empty;
    sst_readers = [];
    next_sst_id = 1;
    next_seq = 1;
    opts = opts;
    metrics = no_metrics;
    block_cache =
        if ltb 0 opts.block_cache_size then some (Cache.new opts.block_cache_size) else none;
    random = p.0;
  }

  open_with_options-new :
      (v : ℕ) (p : ℕ × MemTable)
      → replay_wal crc32 v none opts.memtable_size ≡ ok p
      → open_with_options crc32 opts v no_files none ≡ ok (opened [] p)
  unfolding open_with_options Manifest.load
  open_with_options-new v p e = rw e refl

  open_with_options-old :
      (v : ℕ) (log : Bytes) (p : ℕ × MemTable)
      → replay_wal crc32 v (some log) opts.memtable_size ≡ ok p
      → open_with_options crc32 opts v no_files (some log) ≡ ok (opened log p)
  unfolding open_with_options Manifest.load
  open_with_options-old v log p e = rw e refl

  -- The engine over a new directory.
  new_lem :
      (v : ℕ)
      → opts.sync_wal ≡ true
      → (m : MemTable) × (open_with_options crc32 opts v no_files none ≡ ok (opened [] (v, m)))
        × ((cost : ℕ)
            → size_of_skip_list + cost ≤ opts.memtable_size
            → IsReady (opened [] (v, m)) [] 16 cost)
  unfolding replay_wal
  new_lem v syncs =
      let (m, made, valid, unfrozen, max_size, levels, size) =
        with_max_size-IsValid opts.memtable_size in
      (
        m,
        open_with_options-new v (v, m) (rw made refl),
        λ cost room. record {
          holding = record { cells = []; valid = valid; unfrozen = unfrozen; holds = refl };
          levels = levels;
          room = omega (arith, room, max_size, size);
          syncs = syncs;
        },
      )

  module _ (binary_search : List Bytes → Bytes → Search) where
    answer-unpacked :
        (later : ℕ) (key : Bytes) (e : Engine) (held kept : Option Bytes)
        → unpacked later held ≡ unpacked later kept
        → answer binary_search later key e held ≡ answer binary_search later key e kept
    answer-unpacked later key e none none same = refl
    answer-unpacked later key e none (some w) same = absurd (cc)
    answer-unpacked later key e (some v) none same = absurd (cc)
    answer-unpacked later key e (some v) (some w) same = ap ok (cc)

    -- A new directory is opened, with a log that is synced, and `put`, `put_with_ttl` and `delete`
    -- are called any number of times, for no more than fits the memtable, while the clock, in
    -- seconds, reads the same. The record of each call, with 13 bytes for its fields, is shorter
    -- than 2^32 bytes, and its checksum is a `u32`; where a time to live makes the time of expiry
    -- overflow a `u64`, it wraps, as in a release build. The calls all succeed. After a crash,
    -- opening the directory again succeeds, and every lookup, at any time, returns what it returned
    -- before.
    pub get-reopened :
        (ln2_rounded : ℕ → ℕ) (in_buffer : WalWriter → ℕ) (now v v' : ℕ) (ops : List Op)
        → opts.sync_wal ≡ true
        → size_of_skip_list + total_cost 16 now ops 1 ≤ opts.memtable_size
        → All (IsReadable crc32) (records_of now ops 1)
        → (e : Engine) × (open_with_options crc32 opts v no_files none ≡ ok e)
          × (before : Engine) × (run crc32 ln2_rounded in_buffer now 16 ops e ≡ (before, ok tt))
          × (after : Engine) × (open_with_options crc32 opts v' before.files
                (some before.wal.synced)
              ≡ ok after)
          × ((later : ℕ) (key : Bytes)
              → (get binary_search later key after).1 ≡ (get binary_search later key before).1)
    unfolding lookup open_append
    get-reopened ln2_rounded in_buffer now v v' ops syncs room good =
        let (m, opens, ready) = new_lem v syncs in
        let e = opened [] (v, m) in
        let (before, runs, x) =
          run_lem crc32 ln2_rounded in_buffer now 16 ops e [] []
            (ready (total_cost 16 now ops 1) room) refl in
        let rs = records_of now ops 1 in
        let log = encode_all crc32 rs in
        let (p, replays, held) =
          replay_wal_lem crc32 rs [] v' opts.memtable_size good (nothing_left crc32) in
        let synced : before.wal.synced ≡ log ++ [] =
          ap (λ w. w.synced) x.wal ∙ sym (append-nil log) in
        let after = opened (log ++ []) p in
        (
          e,
          opens,
          before,
          runs,
          after,
          ap₂ (λ fs c. open_with_options crc32 opts v' fs (some c)) x.files synced
              ∙ open_with_options-old v' (log ++ []) p replays,
          λ later key.
              get-Holding binary_search later key after _ held
              ∙ answer_same binary_search later key before after _ (sym x.readers)
                  (sym x.block_cache)
              ∙ sym (
                  answer-unpacked later key before _ _
                    (replay_map-stored_map later now ops 1 [] [] (omega arith) (λ j. refl) key))
              ∙ sym (get-Holding binary_search later key before _ x.holding),
        )
