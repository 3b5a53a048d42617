-- ===== src/Wal/Record.antt =====
-- src/wal/record.rs: one record of the log. `crc32` is `crc32fast::hash`.
pub mod RoundTrip
pub mod Corrupt
use rust_kvdb.Prelude.{
  ℕ, ◌+◌, ◌<◌, ◌^◌, ◌==◌, ltb, if◌then◌else◌, not, List, [], ◌∷◌, ◌++◌, length, drop,
}
use rust_kvdb.Bytes.{Bytes, IsBytes}
use rust_kvdb.Bytes.Le.{to_le_bytes}
use rust_kvdb.Bytes.Cursor.{slice, u8_at, u32_at, as_u32, sized}
use rust_kvdb.KvError.{
  Arg, num, Message, KvError, corruption, checksum_mismatch, Result, ok, err, ◌>>=◌,
}

pub data OpType : Type 0 where
  put delete : OpType

-- `op as u8`
abbrev pub op_byte : OpType → ℕ
op_byte put = 0x01
op_byte delete = 0x02

abbrev pub unknown_op : ℕ → KvError
unknown_op v = corruption (record { format = "unknown op type: {}"; args = num v ∷ [] })

abbrev pub too_short : ℕ → KvError
too_short n =
    corruption (record {
      format = "WAL record too short: need at least 13 bytes, got {}";
      args = num n ∷ [];
    })

abbrev pub truncated_in_key : KvError
truncated_in_key = corruption (record { format = "WAL record truncated in key"; args = [] })

abbrev pub truncated_in_value : KvError
truncated_in_value = corruption (record { format = "WAL record truncated in value"; args = [] })

unfoldable pub from_u8 : ℕ → Result OpType
from_u8 v = if v == 0x01 then ok put else if v == 0x02 then ok delete else err (unknown_op v)

pub record Record : Type 0 where
  pub op : OpType
  pub key : Bytes
  pub value : Bytes

-- The bytes that the checksum covers.
unfoldable pub crc_payload : Record → Bytes
crc_payload r = op_byte r.op ∷ (sized r.key ++ sized r.value)

module _ (crc32 : Bytes → ℕ) where
  unfoldable pub encode : Record → Bytes
  encode r =
      let payload = crc_payload r in
      let record_len = 4 + length payload in
      to_le_bytes 4 (as_u32 record_len) ++ (to_le_bytes 4 (crc32 payload) ++ payload)

  -- The value, once the key ends at `key_end`.
  unfoldable pub decode_value : Bytes → OpType → Bytes → ℕ → Result Record
  decode_value buf op key key_end =
      let val_len = u32_at buf key_end in
      let val_start = key_end + 4 in
      if ltb (length buf) (val_start + val_len)
      then err truncated_in_value
      else ok (record { op = op; key = key; value = slice buf val_start val_len })

  unfoldable pub decode_fields : Bytes → OpType → Result Record
  unfolding decode_value
  decode_fields buf op =
      let key_len = u32_at buf 5 in
      let key_end = 9 + key_len in
      if ltb (length buf) (key_end + 4)
      then err truncated_in_key
      else decode_value buf op (slice buf 9 key_len) key_end

  -- The buffer behind the length prefix.
  unfoldable pub decode : Bytes → Result Record
  unfolding decode_fields from_u8
  decode buf =
      if ltb (length buf) 13
      then err (too_short (length buf))
      else let stored_crc = u32_at buf 0 in
        let actual_crc = crc32 (drop 4 buf) in
        if not (stored_crc == actual_crc)
        then err (checksum_mismatch stored_crc actual_crc)
        else do op ← from_u8 (u8_at buf 4); decode_fields buf op

-- A record whose parts fit their length fields.
pub record IsRecord (r : Record) : Type 0 where
  pub key_bytes : IsBytes r.key
  pub value_bytes : IsBytes r.value
  pub small : 13 + length r.key + length r.value < 2 ^ 32
