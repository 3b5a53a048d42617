-- ===== src/Tests/Writes.antt =====
-- Runs of the writes of the memtable and of the engine, and of opening a directory again.
use rust_kvdb.Prelude.{
  ℕ, ◌+◌, ◌≤◌, List, [], ◌∷◌, ◌++◌, take, drop, take-append-drop, some, none, if◌then◌else◌, All,
  ◌≡◌, refl, arith,
}
use rust_kvdb.Bytes.{Bytes}
use rust_kvdb.Bytes.Le.{to_le_bytes}
use rust_kvdb.Bytes.Order.{bytes_eq}
use rust_kvdb.KvError.{ok}
use rust_kvdb.SortedMap.{lookup}
use rust_kvdb.Wal.Record.{Record, crc_payload}
use rust_kvdb.Wal.Reader.Replay.{IsReadable}
use rust_kvdb.Wal.Crash.{log_of}
use rust_kvdb.Memtable.Node.{size_of_skip_list}
use rust_kvdb.Memtable.SkipList
use rust_kvdb.Memtable.SkipList.{SkipList, xorshift}
use rust_kvdb.Memtable.SkipList.Valid.{contents}
use rust_kvdb.Memtable.SkipList.Insert.{Inserted, insert_lem}
use rust_kvdb.Memtable.MemTable
use rust_kvdb.Memtable.MemTable.{MemTable}
use rust_kvdb.Memtable.MemTable.Writes.{Written, put-Written}
use rust_kvdb.Memtable.MemTable.Holding.{Holding}
use rust_kvdb.Sstable.Reader.{Search, missing}
use rust_kvdb.Engine.{Engine, default_options, no_metrics}
use rust_kvdb.Engine.Value.{encode_with_seq}
use rust_kvdb.Engine.Read.{get, get_at, snapshot}
use rust_kvdb.Engine.Write.Snapshots.{tables_at, get_at-run_op}
use rust_kvdb.Engine.Write.Run.{Op, put, delete, HasRoom, run_op}
use rust_kvdb.Engine.Write.Gets.{get-run_op}
use rust_kvdb.Manifest
use rust_kvdb.Engine.Write.Sequence.{records_of, total_cost, run}
use rust_kvdb.Engine.Open.{replay_wal, open_with_options}
use rust_kvdb.Engine.Open.Recovery.{replay_map, replay_wal-crash}
use rust_kvdb.Engine.Open.Reopen.{no_files, get-reopened}
use rust_kvdb.Tests.Memory.{cell, skip_list, skip_list-IsValid}
use rust_kvdb.Tests.Lists.{memtable}
use rust_kvdb.Tests.Log.{checksum, set_a, delete_b, set_a-IsReadable, delete_b-IsReadable}

insert_lem_example :
    (s' : SkipList) × (SkipList.insert 5 (b'a' ∷ []) (1 ∷ []) skip_list ≡ some (xorshift 5, s'))
    × Inserted (b'a' ∷ []) (1 ∷ []) skip_list (cell ∷ []) s'
insert_lem_example = insert_lem 5 (b'a' ∷ []) (1 ∷ []) skip_list (cell ∷ []) skip_list-IsValid

put-Written_example :
    (m' : MemTable) × (MemTable.put 5 (b'a' ∷ []) (1 ∷ []) memtable ≡ some (xorshift 5, m'))
    × Written (b'a' ∷ []) (1 ∷ []) (cell ∷ []) (cell ∷ []) m'
put-Written_example =
    put-Written 5 (b'a' ∷ []) (1 ∷ []) memtable (cell ∷ []) (cell ∷ [])
      (record { active = skip_list-IsValid; frozen = skip_list-IsValid })

replay_wal-crash_example :
    (saved : List Record) × (dropped : List Record) × (saved ++ dropped ≡ delete_b ∷ [])
    × (p : ℕ × MemTable) × (replay_wal checksum 5
          (some (
            (log_of checksum (set_a ∷ []) (delete_b ∷ [])).synced
            ++ take 3 (log_of checksum (set_a ∷ []) (delete_b ∷ [])).pending))
          100
        ≡ ok p)
    × Holding p.1 (replay_map [] ((set_a ∷ []) ++ saved))
    × ((key : Bytes)
        → MemTable.get key p.1 ≡ some (lookup key (replay_map [] ((set_a ∷ []) ++ saved))))
replay_wal-crash_example =
    replay_wal-crash checksum (set_a ∷ []) (delete_b ∷ [])
      (take 3 (log_of checksum (set_a ∷ []) (delete_b ∷ [])).pending)
      (drop 3 (log_of checksum (set_a ∷ []) (delete_b ∷ [])).pending) 5 100 (set_a-IsReadable, tt)
      (delete_b-IsReadable, tt)
      (take-append-drop 3 (log_of checksum (set_a ∷ []) (delete_b ∷ [])).pending)

abbrev ops : List Op
ops = put (b'a' ∷ []) (1 ∷ 2 ∷ []) ∷ delete (b'a' ∷ []) ∷ []

records-IsReadable : All (IsReadable checksum) (records_of 0 ops 1)
unfolding encode_with_seq to_le_bytes crc_payload
records-IsReadable = (
  record {
    fits = record {
      key_bytes = (omega arith, tt);
      value_bytes = (
        omega arith,
        (
          omega arith,
          (
            omega arith,
            (
              omega arith,
              (
                omega arith,
                (omega arith, (omega arith, (omega arith, (omega arith, (omega arith, tt))))),
              ),
            ),
          ),
        ),
      );
      small = omega arith;
    };
    crc_fits = omega arith;
  },
  (
    record {
      fits = record {
        key_bytes = (omega arith, tt);
        value_bytes = (
          omega arith,
          (
            omega arith,
            (
              omega arith,
              (
                omega arith,
                (omega arith, (omega arith, (omega arith, (omega arith, (omega arith, tt))))),
              ),
            ),
          ),
        );
        small = omega arith;
      };
      crc_fits = omega arith;
    },
    tt,
  ),
)

room : size_of_skip_list + total_cost 16 0 ops 1 ≤ default_options.memtable_size
unfolding encode_with_seq to_le_bytes
room = omega arith

-- A search that finds nothing.
abbrev pub not_found : List Bytes → Bytes → Search
not_found keys key = missing 0

get-reopened_example :
    (e : Engine) × (open_with_options checksum default_options 5 no_files none ≡ ok e)
    × (before : Engine) × (run checksum (λ n. n) (λ w. 0) 0 16 ops e ≡ (before, ok tt))
    × (after : Engine) × (open_with_options checksum default_options 6 before.files
          (some before.wal.synced)
        ≡ ok after)
    × ((later : ℕ) (key : Bytes)
        → (get not_found later key after).1 ≡ (get not_found later key before).1)
get-reopened_example =
    get-reopened checksum default_options not_found (λ n. n) (λ w. 0) 0 5 6 ops refl room
      records-IsReadable

abbrev pub engine : Engine
engine = record {
  files = no_files;
  wal = record { synced = []; pending = [] };
  memtable = record { active = skip_list; immutable = none; max_size = 1000 };
  manifest = Manifest.empty;
  sst_readers = [];
  next_sst_id = 1;
  next_seq = 7;
  opts = default_options;
  metrics = no_metrics;
  block_cache = none;
  random = 5;
}

pub engine-Holding : Holding engine.memtable (contents (cell ∷ []))
engine-Holding = record {
  cells = cell ∷ [];
  valid = record { active = skip_list-IsValid; frozen = refl };
  unfrozen = refl;
  holds = refl;
}

has_room : HasRoom 0 (delete (b'k' ∷ [])) 7 engine.memtable
unfolding encode_with_seq to_le_bytes
has_room = omega arith

get-run_op_example :
    (e' : Engine) × (run_op checksum (λ n. n) (λ w. 0) 0 (delete (b'k' ∷ [])) engine ≡ (e', ok tt))
    × ((later : ℕ) (key : Bytes)
        → (get not_found later key e').1
          ≡ (if bytes_eq (b'k' ∷ []) key then ok none else (get not_found later key engine).1))
get-run_op_example =
    get-run_op not_found checksum (λ n. n) (λ w. 0) 0 (delete (b'k' ∷ [])) engine
      (contents (cell ∷ [])) engine-Holding has_room (omega arith) tt

get_at-run_op_example :
    (e' : Engine) × (run_op checksum (λ n. n) (λ w. 0) 0 (delete (b'k' ∷ [])) engine ≡ (e', ok tt))
    × ((later : ℕ) (key : Bytes)
        → (get_at not_found later key (snapshot engine) e').1 ≡ (
            if bytes_eq (b'k' ∷ []) key
            then tables_at not_found later (snapshot engine) key engine
            else (get_at not_found later key (snapshot engine) engine).1))
get_at-run_op_example =
    get_at-run_op not_found checksum (λ n. n) (λ w. 0) 0 (delete (b'k' ∷ [])) engine
      (contents (cell ∷ [])) engine-Holding has_room (omega arith)
