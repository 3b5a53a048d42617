-- ===== src/Engine/Value/Laws.antt =====
-- What comes back of a stored value.
use rust_kvdb.Prelude.{
  ℕ, ◌+◌, ◌^◌, ◌==◌, ◌<◌, ◌≡◌, refl, arith, leb, if◌then◌else◌, true, false, ◌&&◌, none, some, [],
  ◌∷◌, ◌++◌, length, Ordering, Option-cases, inl, inr,
}
use rust_kvdb.Bytes.{Bytes}
use rust_kvdb.Bytes.Le.{to_le_bytes, from_le_bytes}
use rust_kvdb.Bytes.Cursor.{u8_at, At, At-start, At-le, At-le_next}
use rust_kvdb.Bytes.Order.{compare_bytes, bytes_lt, bytes_eq}
use rust_kvdb.Engine.Value.{
  tombstone, encode_with_seq, decode_with_seq, encode_ttl, unwrap_ttl, unpack_inner, unpack_value,
  increment_last, next_key,
}

-- The sequence number and the value are taken apart again.
pub decode-encode_with_seq :
    (value : Bytes) (seq : ℕ)
    → seq < 2 ^ 64
    → decode_with_seq (encode_with_seq value seq) ≡ some (value, seq)
unfolding decode_with_seq encode_with_seq
decode-encode_with_seq value seq lt =
    let h = At-start (to_le_bytes 8 seq ++ value) in
    let rest = At-le_next 8 seq value h in
    rw (At-le 8 seq value h lt, rest.suffix) (ground (arith, rest.total))

-- A value with an expiry time is there until that time, and its marker is taken off.
unpack-encode_ttl :
    (now : ℕ) (value : Bytes) (expiry : ℕ)
    → expiry < 2 ^ 64
    → unpack_inner now (encode_ttl value expiry) ≡ (if leb expiry now then none else some value)
unfolding unpack_inner unwrap_ttl encode_ttl compare_bytes from_le_bytes
unpack-encode_ttl now value expiry lt =
    let v = 0x01 ∷ (to_le_bytes 8 expiry ++ value) in
    let h : At v 1 (to_le_bytes 8 expiry ++ value) = record {
      suffix = refl;
      total = omega arith;
    } in
    let rest = At-le_next 8 expiry value h in
    let marked : leb 9 (length v) ≡ true = ground (arith, rest.total) in
    rw (marked, At-le 8 expiry value h lt, rest.suffix) refl

-- A value that `put_with_ttl` stores is read back unchanged until its expiry time, and as absent
-- from then on. The sequence number and the expiry time must fit a `u64`.
pub unpack_value-encode_ttl :
    (now : ℕ) (value : Bytes) (seq expiry : ℕ)
    → seq < 2 ^ 64
    → expiry < 2 ^ 64
    → unpack_value now (encode_with_seq (encode_ttl value expiry) seq)
      ≡ (if leb expiry now then none else some value)
unfolding unpack_value
unpack_value-encode_ttl now value seq expiry lt fits =
    rw (decode-encode_with_seq (encode_ttl value expiry) seq lt, unpack_value)
      (unpack-encode_ttl now value expiry fits)

-- A value that `put` stores is read back unchanged at any time, if it is not the single byte 0 and
-- is not one of nine or more bytes that starts with a 1. The sequence number must fit a `u64`.
pub unpack_value-encode_with_seq :
    (now : ℕ) (value : Bytes) (seq : ℕ)
    → seq < 2 ^ 64
    → bytes_eq value tombstone ≡ false
    → leb 9 (length value) && (u8_at value 0 == 0x01) ≡ false
    → unpack_value now (encode_with_seq value seq) ≡ some value
unfolding unpack_value unpack_inner unwrap_ttl
unpack_value-encode_with_seq now value seq lt live plain =
    rw (decode-encode_with_seq value seq lt, unpack_value, unpack_inner, unwrap_ttl, live, plain)
      refl

-- A stored tombstone is read as no value.
pub unpack_value-tombstone :
    (now seq : ℕ) → seq < 2 ^ 64 → unpack_value now (encode_with_seq tombstone seq) ≡ none
unfolding unpack_value unpack_inner compare_bytes
unpack_value-tombstone now seq lt = rw (decode-encode_with_seq tombstone seq lt, unpack_value) refl

increment_last-above :
    (p n s : Bytes) → increment_last p ≡ some n → compare_bytes (p ++ s) n ≡ Ordering.lt
unfolding increment_last compare_bytes
increment_last-above [] n s e = cc
increment_last-above (b ∷ p) n s e = elim (Option-cases (increment_last p)) [
  | inl end ↦ ground arith
  | inr (n', e') ↦ ground (arith, increment_last-above p n' s e')
]

increment_last-some :
    (pre : Bytes) (b : ℕ) (post : Bytes)
    → b < 0xFF
    → (n : Bytes) × (increment_last (pre ++ (b ∷ post)) ≡ some n)
unfolding increment_last
increment_last-some [] b post lt = elim (Option-cases (increment_last post)) [
  | inl end ↦ ((b + 1) ∷ post, ground arith)
  | inr (n, e) ↦ (b ∷ n, ground arith)
]
increment_last-some (a ∷ pre) b post lt =
    let (n, e) = increment_last-some pre b post lt in (a ∷ n, rw (e, increment_last) refl)

not_below_prefix : (p s : Bytes) → bytes_lt (p ++ s) p ≡ false
unfolding compare_bytes
not_below_prefix [] [] = refl
not_below_prefix [] (b ∷ s) = refl
not_below_prefix (b ∷ p) s = ground (arith, not_below_prefix p s)

-- If a prefix has a byte below 255, then every key that starts with it lies in the range from the
-- prefix to its `next_key`: a prefix scan leaves none of them out.
pub next_key-in_range :
    (pre : Bytes) (b : ℕ) (post s : Bytes)
    → b < 0xFF
    → (bytes_lt ((pre ++ (b ∷ post)) ++ s) (pre ++ (b ∷ post)) ≡ false)
      × (bytes_lt ((pre ++ (b ∷ post)) ++ s) (next_key (pre ++ (b ∷ post))) ≡ true)
unfolding next_key
next_key-in_range pre b post s lt =
    let p = pre ++ (b ∷ post) in
    let (n, e) = increment_last-some pre b post lt in
    (not_below_prefix p s, rw (e, next_key) (ground (arith, increment_last-above p n s e)))
