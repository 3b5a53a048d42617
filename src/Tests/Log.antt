-- ===== src/Tests/Log.antt =====
-- Runs of the code of src/wal/, with a sum of the bytes in the place of the checksum function.
use rust_kvdb.Prelude.{ℕ, ◌+◌, ◌%◌, ◌^◌, List, [], ◌∷◌, ◌++◌, take, drop, ◌≡◌, refl, arith, none}
use rust_kvdb.Bytes.{Bytes}
use rust_kvdb.Bytes.Cursor.{sized}
use rust_kvdb.Bytes.Le.{to_le_bytes, from_le_bytes}
use rust_kvdb.KvError.{KvError, ok, err, checksum_mismatch}
use rust_kvdb.Wal.Record.{put, delete, Record, crc_payload, encode, decode, IsRecord}
use rust_kvdb.Wal.Record.RoundTrip.{decode-encode_record}
use rust_kvdb.Wal.Record.Corrupt.{decode-corrupted}
use rust_kvdb.Wal.Reader.{for_each, replay, next}
use rust_kvdb.Wal.Reader.Replay.{IsReadable, reader, encode_all, replay-encode_all}

program : Unit {0}
unfolding crc_payload encode decode replay next to_le_bytes sized
program = tt

abbrev pub sum : Bytes → ℕ
sum [] = 0
sum (b ∷ bs) = b + sum bs

abbrev pub checksum : Bytes → ℕ
checksum bs = sum bs % 2 ^ 32

abbrev pub set_a : Record
set_a = record { op = put; key = b'a' ∷ []; value = 1 ∷ 2 ∷ [] }

abbrev pub delete_b : Record
delete_b = record { op = delete; key = b'b' ∷ []; value = [] }

encode-set_a :
    encode checksum set_a
    ≡ 16 ∷ 0 ∷ 0 ∷ 0 ∷ 104 ∷ 0 ∷ 0 ∷ 0 ∷ 1 ∷ 1 ∷ 0 ∷ 0 ∷ 0 ∷ 97 ∷ 2 ∷ 0 ∷ 0 ∷ 0 ∷ 1 ∷ 2 ∷ []
unfolding program
encode-set_a = refl

set_a-IsRecord : IsRecord set_a
set_a-IsRecord = record {
  key_bytes = (omega arith, tt);
  value_bytes = (omega arith, (omega arith, tt));
  small = omega arith;
}

pub set_a-IsReadable : IsReadable checksum set_a
set_a-IsReadable = record { fits = set_a-IsRecord; crc_fits = omega arith }

pub delete_b-IsReadable : IsReadable checksum delete_b
delete_b-IsReadable = record {
  fits = record { key_bytes = (omega arith, tt); value_bytes = tt; small = omega arith };
  crc_fits = omega arith;
}

-- The records that a replay meets.
abbrev collect : List Record → Record → List Record
collect rs r = rs ++ (r ∷ [])

decode-encode_record_example : decode checksum (drop 4 (encode checksum set_a)) ≡ ok set_a
decode-encode_record_example = decode-encode_record checksum set_a set_a-IsRecord (omega arith)

decode-corrupted_example :
    decode checksum (
      to_le_bytes 4 (checksum (crc_payload set_a))
      ++ (1 ∷ 1 ∷ 0 ∷ 0 ∷ 0 ∷ 97 ∷ 2 ∷ 0 ∷ 0 ∷ 0 ∷ 1 ∷ 3 ∷ []))
    ≡ err (checksum_mismatch (checksum (crc_payload set_a)) 105)
unfolding program
decode-corrupted_example =
    decode-corrupted checksum set_a (1 ∷ 1 ∷ 0 ∷ 0 ∷ 0 ∷ 97 ∷ 2 ∷ 0 ∷ 0 ∷ 0 ∷ 1 ∷ 3 ∷ [])
      (omega arith) refl (ground arith)

replay-encode_all_example :
    replay checksum collect
      (reader (encode_all checksum (set_a ∷ delete_b ∷ []) ++ (7 ∷ [])) none)
      []
    ≡ ok (set_a ∷ delete_b ∷ [])
unfolding program
replay-encode_all_example =
    replay-encode_all checksum collect (set_a ∷ delete_b ∷ []) (7 ∷ []) []
      (set_a-IsReadable, (delete_b-IsReadable, tt)) refl

-- A record that was appended behind a torn one makes the replay fail: the reader takes the bytes
-- of the new record for the rest of the torn one.
append_behind_torn :
    (e : KvError) × (replay checksum collect
        (reader
          (encode checksum set_a ++ (take 6 (encode checksum delete_b) ++ encode checksum set_a))
          none)
        []
      ≡ err e)
unfolding program for_each from_le_bytes
append_behind_torn = (_, refl)
