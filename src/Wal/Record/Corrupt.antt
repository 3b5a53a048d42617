-- ===== src/Wal/Record/Corrupt.antt =====
-- What `Record::decode` refuses, and what an accepted buffer holds.
use rust_kvdb.Prelude.{ℕ, ◌<◌, ◌^◌, ◌++◌, length, ◌≡◌, ◌≢◌, arith, ap}
use rust_kvdb.Bytes.{Bytes}
use rust_kvdb.Bytes.Le.{to_le_bytes}
use rust_kvdb.Bytes.Cursor.{At, At-start, At-le, At-le_next}
use rust_kvdb.KvError.{err, checksum_mismatch}
use rust_kvdb.Wal.Record.{Record, crc_payload, decode}
use rust_kvdb.Wal.Record.RoundTrip.{length-crc_payload}

-- A record whose payload was changed on disk, at the same length, into bytes with another checksum
-- is refused: the error reports the stored and the computed checksum, and no record is returned.
pub decode-corrupted :
    (crc32 : Bytes → ℕ) (r : Record) (payload : Bytes)
    → crc32 (crc_payload r) < 2 ^ 32
    → length payload ≡ length (crc_payload r)
    → crc32 payload ≢ crc32 (crc_payload r)
    → decode crc32 (to_le_bytes 4 (crc32 (crc_payload r)) ++ payload)
      ≡ err (checksum_mismatch (crc32 (crc_payload r)) (crc32 payload))
unfolding decode
decode-corrupted crc32 r payload lt same differs =
    let buf = to_le_bytes 4 (crc32 (crc_payload r)) ++ payload in refuse (At-start buf)
  where
    refuse :
        {buf : Bytes}
        → At buf 0 (to_le_bytes 4 (crc32 (crc_payload r)) ++ payload)
        → decode crc32 buf ≡ err (checksum_mismatch (crc32 (crc_payload r)) (crc32 payload))
    refuse {buf} h = ground (
      arith,
      At-le 4 (crc32 (crc_payload r)) payload h lt,
      ap crc32 (At-le_next 4 (crc32 (crc_payload r)) payload h).suffix,
      (At-le_next 4 (crc32 (crc_payload r)) payload h).total,
      length-crc_payload r,
    )
