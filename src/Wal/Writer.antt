-- ===== src/Wal/Writer.antt =====
-- `WALWriter` of src/wal/writer.rs: an append-only file behind a buffer.
use rust_kvdb.Prelude.{ℕ, [], ◌++◌, take}
use rust_kvdb.Bytes.{Bytes}
use rust_kvdb.KvError.{IoError, io, Result, ok, err}
use rust_kvdb.Wal.Record.{Record, put, encode}

-- `synced` is on disk for good; `pending` was written since the last `flush`, and is in the buffer
-- of the `BufWriter` or in the cache of the system.
pub record WalWriter : Type 0 where
  pub synced : Bytes
  pub pending : Bytes

-- What the system makes of a write: all of it, or an error after the first bytes.
pub data Write : Type 0 where
  done : Write
  failed : ℕ → IoError → Write

-- What the system makes of a sync: a failed one leaves open which bytes are on disk.
pub data Sync : Type 0 where
  done : Sync
  failed : IoError → Sync

-- `open` of a file with these contents: later writes go to its end.
unfoldable pub open_append : Bytes → WalWriter
open_append contents = record { synced = contents; pending = [] }

unfoldable pub write_all : Write → WalWriter → Bytes → WalWriter × Result (Unit {0})
write_all Write.done w buf = (record w { pending = w.pending ++ buf }, ok tt)
write_all (Write.failed n e) w buf = (record w { pending = w.pending ++ take n buf }, err (io e))

-- `flush` and `sync_data`
unfoldable pub flush : Sync → WalWriter → WalWriter × Result (Unit {0})
flush Sync.done w = (record { synced = w.synced ++ w.pending; pending = [] }, ok tt)
flush (Sync.failed e) w = (w, err (io e))

module _ (crc32 : Bytes → ℕ) where
  unfoldable pub append_record : Write → WalWriter → Record → WalWriter × Result (Unit {0})
  unfolding write_all
  append_record o w r = write_all o w (encode crc32 r)

  unfoldable pub append : Write → WalWriter → Bytes → Bytes → WalWriter × Result (Unit {0})
  unfolding write_all
  append o w key value =
      write_all o w (encode crc32 (record { op = put; key = key; value = value }))
