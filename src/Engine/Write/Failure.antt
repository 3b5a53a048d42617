-- ===== src/Engine/Write/Failure.antt =====
-- A write of src/engine.rs that the log does not take.
use rust_kvdb.Prelude.{ℕ, ◌+◌, Bool, true, Option, some, List, ◌++◌, take, none, ◌≡◌, refl, ap, ◌∙◌}
use rust_kvdb.Bytes.{Bytes}
use rust_kvdb.KvError.{IoError, io, err}
use rust_kvdb.Wal.Record.{encode}
use rust_kvdb.Wal.Writer
use rust_kvdb.Wal.Writer.{Write, Sync, WalWriter, append_record}
use rust_kvdb.Memtable.MemTable
use rust_kvdb.Sstable.Reader.{Search}
use rust_kvdb.Engine.{Engine, next_u64}
use rust_kvdb.Engine.Value.{unpack_value}
use rust_kvdb.Engine.Read.{get, search, after_memtable}
use rust_kvdb.Engine.Write.Run.{Op, record_of, request, steps, request-steps}

-- The engine behind a write that failed: only the log and the sequence number may differ.
abbrev pub failed : Engine → WalWriter → Engine
failed e log = record e { wal = log; next_seq = next_u64 e.next_seq }

after_memtable-failed :
    (binary_search : List Bytes → Bytes → Search) (later : ℕ) (key : Bytes) (e : Engine)
    (log : WalWriter) (held : Option (Option Bytes))
    → (after_memtable binary_search (λ v. some (unpack_value later v)) key held (failed e log)).1
      ≡ (after_memtable binary_search (λ v. some (unpack_value later v)) key held e).1
after_memtable-failed binary_search later key e log none = refl
after_memtable-failed binary_search later key e log (some none) = refl
after_memtable-failed binary_search later key e log (some (some v)) = refl

-- A lookup does not see the log, nor the sequence number.
get-failed :
    (binary_search : List Bytes → Bytes → Search) (later : ℕ) (key : Bytes) (e : Engine)
    (log : WalWriter)
    → (get binary_search later key (failed e log)).1 ≡ (get binary_search later key e).1
unfolding get search
get-failed binary_search later key e log =
    after_memtable-failed binary_search later key
      (record e { metrics = record e.metrics { reads = e.metrics.reads + 1 } }) log
      (MemTable.get key e.memtable)

-- The write to the log fails with this error, or the sync that comes after it does.
pub data Fails (sync : Bool) (x : IoError) : Write → Sync → Type 0 where
  at_write : (n : ℕ) (s : Sync) → Fails sync x (Write.failed n x) s
  at_sync : sync ≡ true → Fails sync x Write.done (Sync.failed x)

module _ (crc32 : Bytes → ℕ) (ln2_rounded : ℕ → ℕ) (in_buffer : WalWriter → ℕ) (now : ℕ) where
  unwritten :
      (n : ℕ) (x : IoError) (s : Sync) (sync : Bool) (op : Op) (e : Engine)
      → steps crc32 ln2_rounded in_buffer now (Write.failed n x) s sync op e ≡ (
        failed e (record e.wal {
          pending = e.wal.pending ++ take n (encode crc32 (record_of now op e.next_seq));
        }),
        err (io x),
      )
  unfolding steps append_record
  unwritten n x s sync op e = refl

  unsynced :
      (x : IoError) (op : Op) (e : Engine)
      → steps crc32 ln2_rounded in_buffer now Write.done (Sync.failed x) true op e ≡ (
        failed e (record e.wal {
          pending = e.wal.pending ++ encode crc32 (record_of now op e.next_seq);
        }),
        err (io x),
      )
  unfolding steps append_record Writer.flush
  unsynced x op e = refl

  -- A `put`, `put_with_ttl` or `delete` whose write to the log fails, or whose sync does, returns
  -- that error. Every lookup then returns what it did before, and what was synced is as it was:
  -- bytes are only added behind it. The sequence number is used up.
  pub request-failed :
      (w : Write) (s : Sync) (op : Op) (e : Engine) (x : IoError)
      → Fails e.opts.sync_wal x w s
      → (log : WalWriter) × (more : Bytes) × (request crc32 ln2_rounded in_buffer now w s op e
          ≡ (failed e log, err (io x)))
        × (log.synced ≡ e.wal.synced)
        × (log.pending ≡ e.wal.pending ++ more)
        × ((binary_search : List Bytes → Bytes → Search) (later : ℕ) (key : Bytes)
            → (get binary_search later key (failed e log)).1 ≡ (get binary_search later key e).1)
  request-failed _ _ op e x (at_write n s) = (
    record e.wal { pending = e.wal.pending ++ take n (encode crc32 (record_of now op e.next_seq)) },
    take n (encode crc32 (record_of now op e.next_seq)),
    request-steps crc32 ln2_rounded in_buffer now (Write.failed n x) s op e
        ∙ unwritten n x s e.opts.sync_wal op e,
    refl,
    refl,
    λ binary_search later key. get-failed binary_search later key e _,
  )
  request-failed _ _ op e x (at_sync on) = (
    record e.wal { pending = e.wal.pending ++ encode crc32 (record_of now op e.next_seq) },
    encode crc32 (record_of now op e.next_seq),
    request-steps crc32 ln2_rounded in_buffer now Write.done (Sync.failed x) op e
        ∙ ap (λ b. steps crc32 ln2_rounded in_buffer now Write.done (Sync.failed x) b op e) on
        ∙ unsynced x op e,
    refl,
    refl,
    λ binary_search later key. get-failed binary_search later key e _,
  )
