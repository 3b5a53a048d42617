-- ===== src/Http/PutGet.antt =====
-- What the handlers of src/http/handler.rs answer after a write.
use rust_kvdb.Prelude.{ℕ, ◌<◌, ◌^◌, true, false, some, List, ◌≡◌, refl, ap, ◌∙◌, arith}
use rust_kvdb.Bytes.{Bytes}
use rust_kvdb.Bytes.Order.{bytes_eq, compare_bytes_self}
use rust_kvdb.SortedMap.{Entries}
use rust_kvdb.Wal.Writer.{WalWriter, Write, Sync}
use rust_kvdb.Memtable.MemTable.Holding.{Holding}
use rust_kvdb.Sstable.Reader.{Search}
use rust_kvdb.Engine.{Engine}
use rust_kvdb.Engine.Write.Run.{put, HasRoom, request}
use rust_kvdb.Engine.Write.Gets.{IsPlain, get-run_op}
use rust_kvdb.Db
use rust_kvdb.Db.{Db}
use rust_kvdb.Http.{PutRequest, json, wrote, hex, get_key, put_key, get_answer}

bytes_eq_self : (key : Bytes) → bytes_eq key key ≡ true
bytes_eq_self key = ground (arith, compare_bytes_self key)

-- A shared engine whose lock is not poisoned.
abbrev pub shared : Engine → ℕ → Db
shared e handles = record { inner = e; poisoned = false; handles = handles }

-- An HTTP request that puts a value, to a database that is not poisoned, with a log that takes the
-- write and a valid memtable that has room for it, is answered by its success. A request
-- for the key is then answered, at any later time, by the value as text and in hexadecimal. The
-- value must not look like a tombstone or one with an expiry time.
pub get_key-put_key :
    (lossy : Bytes → Bytes) (binary_search : List Bytes → Bytes → Search) (crc32 : Bytes → ℕ)
    (ln2_rounded : ℕ → ℕ) (in_buffer : WalWriter → ℕ) (now handles : ℕ) (req : PutRequest)
    (e : Engine) (entries : Entries)
    → Holding e.memtable entries
    → HasRoom now (put req.key req.value) e.next_seq e.memtable
    → e.next_seq < 2 ^ 64
    → IsPlain now (put req.key req.value)
    → (d : Db) × (put_key crc32 ln2_rounded in_buffer Write.done Sync.done now req
          (shared e handles)
        ≡ (d, json (record { success = true; message = wrote req })))
      × ((later : ℕ)
          → (get_key lossy binary_search later req.key d).1
            ≡ json (record {
              found = true;
              key = req.key;
              value = some (lossy req.value);
              value_hex = some (hex req.value);
            }))
unfolding put_key get_key Db.put Db.get Db.with_lock request
get_key-put_key lossy binary_search crc32 ln2_rounded in_buffer now handles req e entries h room lt
      plain =
    let (e', returns, gets) =
      get-run_op binary_search crc32 ln2_rounded in_buffer now (put req.key req.value) e entries h
        room lt plain in
    (
      shared e' handles,
      rw returns refl,
      λ later. ap (get_answer lossy req.key) (gets later req.key) ∙ rw (bytes_eq_self req.key) refl,
    )
