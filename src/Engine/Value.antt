-- ===== src/Engine/Value.antt =====
-- How src/engine.rs stores values: a sequence number in front, and for some an expiry time.
-- `now` is the system's clock, in seconds.
pub mod Laws
use rust_kvdb.Prelude.{
  ℕ, zero, suc, ◌+◌, ◌==◌, ltb, leb, if◌then◌else◌, not, Bool, true, false, ◌&&◌, Option, none,
  some, List, [], ◌∷◌, ◌++◌, length, drop,
}
use rust_kvdb.Bytes.{Bytes}
use rust_kvdb.Bytes.Le.{to_le_bytes}
use rust_kvdb.Bytes.Cursor.{u8_at, u64_at}
use rust_kvdb.Bytes.Order.{bytes_eq}

-- `TOMBSTONE`
abbrev pub tombstone : Bytes
tombstone = 0x00 ∷ []

unfoldable pub encode_with_seq : Bytes → ℕ → Bytes
encode_with_seq value seq = to_le_bytes 8 seq ++ value

-- The code's `Option` is always `Some`.
unfoldable pub decode_with_seq : Bytes → Option (Bytes × ℕ)
decode_with_seq v = if leb 8 (length v) then some (drop 8 v, u64_at v 0) else some (v, 0)

-- The encoding that `put_with_ttl` stores.
unfoldable pub encode_ttl : Bytes → ℕ → Bytes
encode_ttl value expiry = 0x01 ∷ (to_le_bytes 8 expiry ++ value)

unfoldable pub unwrap_ttl : ℕ → Bytes → Option Bytes
unwrap_ttl now v =
    if leb 9 (length v) && (u8_at v 0 == 0x01)
    then if leb (u64_at v 1) now then none else some (drop 9 v)
    else some v

unfoldable pub unpack_inner : ℕ → Bytes → Option Bytes
unfolding unwrap_ttl
unpack_inner now v = if bytes_eq v tombstone then none else unwrap_ttl now v

unfoldable pub unpack_value : ℕ → Bytes → Option Bytes
unfolding decode_with_seq unpack_inner
unpack_value now v = elim (decode_with_seq v) [ none ↦ none | some p ↦ unpack_inner now p.0 ]

-- `for i in (0..next.len()).rev()`: the last byte below 0xFF goes up by one, if there is one.
unfoldable pub increment_last : Bytes → Option Bytes
increment_last [] = none
increment_last (b ∷ bs) = elim (increment_last bs) [
  | some bs' ↦ some (b ∷ bs')
  | none ↦ if ltb b 0xFF then some ((b + 1) ∷ bs) else none
]

unfoldable pub next_key : Bytes → Bytes
unfolding increment_last
next_key prefix = elim (increment_last prefix) [ some next ↦ next | none ↦ prefix ++ (0x00 ∷ []) ]
