-- ===== src/Tests/Server.antt =====
-- Runs of the shared handle and of the HTTP handlers.
use rust_kvdb.Prelude.{ℕ, true, some, List, [], ◌∷◌, map, ◌≡◌, refl, arith}
use rust_kvdb.Bytes.Le.{to_le_bytes, from_le_bytes}
use rust_kvdb.Bytes.Order.{compare_bytes}
use rust_kvdb.Memtable.SkipList.Valid.{contents}
use rust_kvdb.Engine.Value.{encode_with_seq}
use rust_kvdb.Engine.Write.Run.{put, HasRoom}
use rust_kvdb.Wal.Writer.{Write, Sync}
use rust_kvdb.Db.{Db, new_db, with_lock}
use rust_kvdb.Db
use rust_kvdb.Db.Poison.{Call, run, run_all, run_all-panic}
use rust_kvdb.Manifest.{sst_meta}
use rust_kvdb.Sstable.Block
use rust_kvdb.Sstable.Reader
use rust_kvdb.Sstable.Reader.{SstableReader}
use rust_kvdb.Engine.Read
use rust_kvdb.Http.{PutRequest, json, wrote, hex, get_key, put_key}
use rust_kvdb.Http.PutGet.{shared, get_key-put_key}
use rust_kvdb.WriteBatch.{BatchOp, WriteBatch}
use rust_kvdb.Cli.{parse_batch}
use rust_kvdb.Cli.Batch.{words, parse_batch-words}
use rust_kvdb.Tests.Log.{checksum}
use rust_kvdb.Tests.Memory.{cell}
use rust_kvdb.Tests.Writes.{engine, engine-Holding, not_found}

-- A table whose only block says that its first key shares a byte with the key before it.
abbrev damaged : SstableReader
damaged = record {
  contents = 1 ∷ 0 ∷ 0 ∷ 0 ∷ 1 ∷ 0 ∷ 0 ∷ 0 ∷ [];
  index = (0, b'a' ∷ []) ∷ [];
  index_offset = 8;
  bloom = record { bits = []; num_hashes = 0; num_bits = 0 };
  sst_id = 1;
}

abbrev damaged_db : Db
damaged_db =
    new_db (record engine { sst_readers = (sst_meta 1 0 (b'a' ∷ []) (b'a' ∷ []), damaged) ∷ [] })

abbrev scan_all : Call
scan_all = Call.scan 0 [] (b'z' ∷ [])

abbrev later_calls : List Call
later_calls =
    Call.get 1 (b'k' ∷ [])
    ∷ Call.put Write.done Sync.done 2 (b'k' ∷ []) (1 ∷ [])
    ∷ Call.metrics
    ∷ []

scan_all-panic : (run not_found checksum (λ n. n) (λ w. 0) scan_all damaged_db).1 ≡ true
unfolding run Db.scan with_lock Read.scan Read.scan_readers Reader.iter Reader.load_block
    Reader.read_block Block.decode Block.decode_entries Block.decode_entry Block.shared_part
    from_le_bytes
scan_all-panic = refl

run_all-panic_example :
    ((run not_found checksum (λ n. n) (λ w. 0) scan_all damaged_db).0.poisoned ≡ true)
    × (run_all not_found checksum
          (λ n. n)
          (λ w. 0)
          later_calls
          (run not_found checksum (λ n. n) (λ w. 0) scan_all damaged_db).0
        ≡ (
          (run not_found checksum (λ n. n) (λ w. 0) scan_all damaged_db).0,
          map (λ call. true) later_calls,
        ))
run_all-panic_example =
    run_all-panic not_found checksum (λ n. n) (λ w. 0) scan_all later_calls damaged_db
      scan_all-panic

abbrev request_a : PutRequest
request_a = record { key = b'a' ∷ []; value = 171 ∷ 2 ∷ [] }

HasRoom-request_a : HasRoom 0 (put request_a.key request_a.value) 7 engine.memtable
unfolding encode_with_seq to_le_bytes
HasRoom-request_a = omega arith

hex-request_a : hex request_a.value ≡ b'a' ∷ b'b' ∷ b' ' ∷ b'0' ∷ b'2' ∷ []
unfolding hex
hex-request_a = refl

get_key-put_key_example :
    (d : Db) × (put_key checksum
        (λ n. n)
        (λ w. 0)
        Write.done
        Sync.done
        0
        request_a
        (shared engine 1)
      ≡ (d, json (record { success = true; message = wrote request_a })))
    × ((later : ℕ)
        → (get_key (λ b. b) not_found later request_a.key d).1
          ≡ json (record {
            found = true;
            key = request_a.key;
            value = some request_a.value;
            value_hex = some (hex request_a.value);
          }))
unfolding compare_bytes
get_key-put_key_example =
    get_key-put_key (λ b. b) not_found checksum (λ n. n) (λ w. 0) 0 1 request_a engine
      (contents (cell ∷ [])) engine-Holding HasRoom-request_a (omega arith) (refl, refl)

abbrev ops : WriteBatch
ops = BatchOp.put (b'a' ∷ []) (b'1' ∷ []) ∷ BatchOp.delete (b'b' ∷ []) ∷ []

parse_batch-words_example :
    parse_batch (words ops) [] ≡ some (BatchOp.put (b'a' ∷ []) (b'1' ∷ []) ∷ [])
parse_batch-words_example = parse_batch-words ops
