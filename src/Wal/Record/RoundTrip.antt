-- ===== src/Wal/Record/RoundTrip.antt =====
-- What `Record::encode` writes, `Record::decode` reads, and what `decode` accepts.
use rust_kvdb.Prelude.{
  ℕ, ◌+◌, ◌<◌, ◌^◌, [], ◌∷◌, ◌++◌, length, drop, ◌≡◌, refl, arith, ap, append-nil, length-append,
}
use rust_kvdb.Bytes.{Bytes}
use rust_kvdb.Bytes.Le.{to_le_bytes, length-to_le_bytes}
use rust_kvdb.Bytes.Cursor.{
  u8_at, u32_at, as_u32, sized, At, At-start, At-le, At-le_next, At-append, At-sized, length-sized,
}
use rust_kvdb.KvError.{ok}
use rust_kvdb.Wal.Record.{
  Record, IsRecord, OpType, put, delete, op_byte, crc_payload, encode, decode, decode_fields,
  decode_value, from_u8,
}

pub length-crc_payload : (r : Record) → length (crc_payload r) ≡ 9 + length r.key + length r.value
unfolding crc_payload
length-crc_payload r =
    omega
      (arith, length-append (sized r.key) (sized r.value), length-sized r.key, length-sized r.value)

op_byte-At :
    {xs : Bytes} {pos : ℕ} (op : OpType) (s : Bytes)
    → At xs pos (op_byte op ∷ s)
    → u8_at xs pos ≡ op_byte op
unfolding to_le_bytes
op_byte-At put s h = At-le 1 1 s h (omega arith)
op_byte-At delete s h = At-le 1 2 s h (omega arith)

from_u8-op_byte : (op : OpType) → from_u8 (op_byte op) ≡ ok op
unfolding from_u8
from_u8-op_byte put = refl
from_u8-op_byte delete = refl

module _ (crc32 : Bytes → ℕ) (r : Record) (fits : IsRecord r) where
  decode_value-At :
      {buf : Bytes} {pos : ℕ}
      → At buf pos (sized r.value)
      → decode_value crc32 buf r.op r.key pos ≡ ok r
  unfolding decode_value
  decode_value-At {buf} {pos} h =
      let h' : At buf pos (sized r.value ++ []) = rw append-nil h in
      let v = At-sized r.value [] h' (omega (arith, fits.small)) in
      rw (v.len, v.bytes) (ground (arith, v.fits))

  decode_fields-At :
      {buf : Bytes} → At buf 5 (sized r.key ++ sized r.value) → decode_fields crc32 buf r.op ≡ ok r
  unfolding decode_fields
  decode_fields-At {buf} h =
      let k = At-sized r.key (sized r.value) h (omega (arith, fits.small)) in
      let at_value : At buf (9 + length r.key) (sized r.value) = k.after in
      rw (k.len, k.bytes) (ground (arith, decode_value-At at_value, at_value.total))

  decode-At :
      {buf : Bytes}
      → At buf 0 (to_le_bytes 4 (crc32 (crc_payload r)) ++ crc_payload r)
      → crc32 (crc_payload r) < 2 ^ 32
      → decode crc32 buf ≡ ok r
  unfolding decode crc_payload
  decode-At {buf} h lt =
      let fields = sized r.key ++ sized r.value in
      let h4 : At buf 4 (crc_payload r) = At-le_next 4 _ (crc_payload r) h in
      let h5 : At buf 5 fields = At-append (op_byte r.op ∷ []) fields h4 in
      let stored : u32_at buf 0 ≡ crc32 (crc_payload r) = At-le 4 _ (crc_payload r) h lt in
      ground (
        arith,
        stored,
        ap crc32 h4.suffix,
        h4.total,
        length-crc_payload r,
        op_byte-At r.op fields h4,
        from_u8-op_byte r.op,
        decode_fields-At h5,
      )

-- What follows the length prefix of an encoded record.
abbrev pub body : (Bytes → ℕ) → Record → Bytes
body crc32 r = to_le_bytes 4 (crc32 (crc_payload r)) ++ crc_payload r

pub length-body :
    (crc32 : Bytes → ℕ) (r : Record) → length (body crc32 r) ≡ 13 + length r.key + length r.value
length-body crc32 r = omega (
  arith,
  length-append (to_le_bytes 4 (crc32 (crc_payload r))) (crc_payload r),
  length-to_le_bytes 4 (crc32 (crc_payload r)),
  length-crc_payload r,
)

-- An encoded record is its length prefix and its body.
pub encode-body :
    (crc32 : Bytes → ℕ) (r : Record)
    → encode crc32 r ≡ to_le_bytes 4 (as_u32 (length (body crc32 r))) ++ body crc32 r
unfolding encode
encode-body crc32 r =
    let e : length (body crc32 r) ≡ 4 + length (crc_payload r) =
      omega (arith, length-body crc32 r, length-crc_payload r) in
    rw e

pub length-encode :
    (crc32 : Bytes → ℕ) (r : Record) → length (encode crc32 r) ≡ 17 + length r.key + length r.value
length-encode crc32 r =
    let n = as_u32 (length (body crc32 r)) in
    rw encode-body (
      omega (
        arith,
        length-append (to_le_bytes 4 n) (body crc32 r),
        length-to_le_bytes 4 n,
        length-body crc32 r,
      ))

pub decode-body :
    (crc32 : Bytes → ℕ) (r : Record)
    → IsRecord r
    → crc32 (crc_payload r) < 2 ^ 32
    → decode crc32 (body crc32 r) ≡ ok r
decode-body crc32 r fits lt = decode-At crc32 r fits (At-start (body crc32 r)) lt

-- Decoding what follows the length prefix of an encoded record gives the record back, if its key
-- and value are bytes, its length fits a `u32`, and the checksum function returns a `u32` on it.
pub decode-encode_record :
    (crc32 : Bytes → ℕ) (r : Record)
    → IsRecord r
    → crc32 (crc_payload r) < 2 ^ 32
    → decode crc32 (drop 4 (encode crc32 r)) ≡ ok r
decode-encode_record crc32 r fits lt =
    let n = as_u32 (length (body crc32 r)) in
    let h : At (encode crc32 r) 0 (to_le_bytes 4 n ++ body crc32 r) =
      rw (← encode-body crc32 r) (At-start (encode crc32 r)) in
    rw ((At-le_next 4 n (body crc32 r) h).suffix) (decode-body crc32 r fits lt)
