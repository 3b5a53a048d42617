-- ===== src/Bloom.antt =====
-- src/filter/bloom.rs: the Bloom filter. `ln2_rounded n` is `(n as f64 * LN_2).round() as usize`.
pub mod Bits
pub mod Member
pub mod RoundTrip
use Prim.Native.Nat.{bit_and, bit_or, bit_xor, min, max}
use rust_kvdb.Prelude.{
  ℕ, zero, suc, ◌+◌, ◌*◌, ◌/◌, ◌%◌, ◌^◌, ◌==◌, ltb, if◌then◌else◌, Bool, true, false, none, some,
  List, [], ◌∷◌, ◌++◌, length, get_elem?, set, replicate,
}
use rust_kvdb.Bytes.{Bytes}
use rust_kvdb.Bytes.Le.{to_le_bytes}
use rust_kvdb.Bytes.Cursor.{u32_at, u64_at, as_u32}
use rust_kvdb.KvError.{KvError, corruption, Result, ok, err, panic, ◌>>=◌}

-- `bits` are words of 64 bits.
pub record BloomFilter : Type 0 where
  pub bits : List ℕ
  pub num_hashes : ℕ
  pub num_bits : ℕ

unfoldable pub fnv1a_with_seed : Bytes → ℕ → ℕ
fnv1a_with_seed [] h = h
fnv1a_with_seed (b ∷ key) h = fnv1a_with_seed key (bit_xor h b * 0x01000193 % 2 ^ 32)

abbrev pub fnv1a : Bytes → ℕ
fnv1a key = fnv1a_with_seed key 0x811c9dc5

unfoldable pub double_hash : Bytes → ℕ × ℕ
unfolding fnv1a_with_seed
double_hash key =
    let h2 = fnv1a_with_seed key (bit_xor 0x811c9dc5 0x01000193) in
    (fnv1a key, (h2 * 2 % 2 ^ 32 + 1) % 2 ^ 32)

-- `pos`, for the hash function `i`
abbrev pub position : ℕ × ℕ → ℕ → ℕ → ℕ
position h num_bits i = (h.0 + as_u32 i * h.1 % 2 ^ 32) % 2 ^ 32 % num_bits

-- `bits[pos / 64] |= 1 << (pos % 64)`
unfoldable pub set_bit : ℕ → List ℕ → Result (List ℕ)
set_bit pos bits = elim (get_elem? bits (pos / 64)) [
  | none ↦ panic
  | some word ↦ ok (set bits (pos / 64) (bit_or word (2 ^ (pos % 64))))
]

-- `for i in 0..num_hashes`, with as many rounds left, from `i` on
unfoldable pub set_hashes : ℕ × ℕ → ℕ → ℕ → ℕ → List ℕ → Result (List ℕ)
unfolding set_bit
set_hashes h num_bits zero i bits = ok bits
set_hashes h num_bits (suc n) i bits = do
  bits' ← set_bit (position h num_bits i) bits
  set_hashes h num_bits n (suc i) bits'

-- `for key in keys`
unfoldable pub set_keys : ℕ → ℕ → List Bytes → List ℕ → Result (List ℕ)
unfolding set_hashes double_hash
set_keys num_bits num_hashes [] bits = ok bits
set_keys num_bits num_hashes (key ∷ keys) bits = do
  bits' ← set_hashes (double_hash key) num_bits num_hashes 0 bits
  set_keys num_bits num_hashes keys bits'

-- `k.clamp(1, 30)`
abbrev pub optimal_hashes : (ℕ → ℕ) → ℕ → ℕ
optimal_hashes ln2_rounded bits_per_key = min (max (ln2_rounded bits_per_key) 1) 30

-- The product wraps, as in a release build; in a debug build it panics instead.
unfoldable pub build : (ℕ → ℕ) → List Bytes → ℕ → Result BloomFilter
unfolding set_keys
build ln2_rounded keys bits_per_key =
    let num_bits = max (length keys * bits_per_key % 2 ^ 64) 64 in
    let num_words = (num_bits + 63) / 64 in
    let num_hashes = optimal_hashes ln2_rounded bits_per_key in
    do
      bits ← set_keys num_bits num_hashes keys (replicate num_words 0)
      ok (record { bits = bits; num_hashes = num_hashes; num_bits = num_bits })

-- `self.bits[pos / 64] & (1 << (pos % 64)) == 0`
unfoldable pub bit_clear : ℕ → List ℕ → Result Bool
bit_clear pos bits = elim (get_elem? bits (pos / 64)) [
  | none ↦ panic
  | some word ↦ ok (bit_and word (2 ^ (pos % 64)) == 0)
]

-- `for i in 0..self.num_hashes`, with as many rounds left, from `i` on
unfoldable pub check_hashes : ℕ × ℕ → ℕ → ℕ → ℕ → List ℕ → Result Bool
unfolding bit_clear
check_hashes h num_bits zero i bits = ok true
check_hashes h num_bits (suc n) i bits =
    let rest = check_hashes h num_bits n (suc i) bits in
    do clear ← bit_clear (position h num_bits i) bits; if clear then ok false else rest

unfoldable pub may_contain : Bytes → BloomFilter → Result Bool
unfolding check_hashes double_hash
may_contain key f =
    if f.num_bits == 0
    then ok false
    else check_hashes (double_hash key) f.num_bits f.num_hashes 0 f.bits

unfoldable pub encode_words : List ℕ → Bytes
encode_words [] = []
encode_words (word ∷ words) = to_le_bytes 8 word ++ encode_words words

unfoldable pub encode : BloomFilter → Bytes
unfolding encode_words
encode f =
    to_le_bytes 4 (as_u32 f.num_hashes)
    ++ (to_le_bytes 4 (as_u32 f.num_bits)
        ++ (to_le_bytes 4 (as_u32 (length f.bits)) ++ encode_words f.bits))

-- `for i in 0..num_words`; the loop stays within the length that was checked.
unfoldable pub decode_words : ℕ → Bytes → ℕ → List ℕ
decode_words zero buf offset = []
decode_words (suc n) buf offset = u64_at buf offset ∷ decode_words n buf (offset + 8)

unfoldable pub decode : Bytes → Result BloomFilter
unfolding decode_words
decode buf =
    if ltb (length buf) 12
    then err (corruption (record { format = "bloom filter too short"; args = [] }))
    else let num_words = u32_at buf 8 in
      if ltb (length buf) (12 + num_words * 8)
      then err (corruption (record { format = "bloom filter data truncated"; args = [] }))
      else ok (record {
        bits = decode_words num_words buf 12;
        num_hashes = u32_at buf 0;
        num_bits = u32_at buf 4;
      })
