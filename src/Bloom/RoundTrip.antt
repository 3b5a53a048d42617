-- ===== src/Bloom/RoundTrip.antt =====
-- The bytes of a filter.
use rust_kvdb.Prelude.{
  ℕ, ◌+◌, ◌*◌, ◌^◌, ◌<◌, ◌≡◌, refl, ◌∙◌, arith, List, [], ◌∷◌, ◌++◌, length, length-append, All,
}
use rust_kvdb.Bytes.{Bytes, IsU64}
use rust_kvdb.Bytes.Le.{to_le_bytes, length-to_le_bytes}
use rust_kvdb.Bytes.Cursor.{u32_at, as_u32, At, At-start, At-le, At-le_next}
use rust_kvdb.KvError.{ok}
use rust_kvdb.Bloom.{BloomFilter, encode_words, encode, decode_words, decode}

length-encode_words : (words : List ℕ) → length (encode_words words) ≡ length words * 8
unfolding encode_words
length-encode_words [] = refl
length-encode_words (w ∷ words) = omega (
  arith,
  length-append (to_le_bytes 8 w) (encode_words words),
  length-to_le_bytes 8 w,
  length-encode_words words,
)

decode_words-At :
    {buf : Bytes} (words : List ℕ) (pos : ℕ)
    → All IsU64 words
    → At buf pos (encode_words words)
    → decode_words (length words) buf pos ≡ words
unfolding decode_words encode_words
decode_words-At [] pos fits h = refl
decode_words-At (w ∷ words) pos (f, fits) h =
    rw
      (
        At-le 8 w (encode_words words) h f,
        decode_words-At words (pos + 8) fits (At-le_next 8 w (encode_words words) h),
      )
      refl

-- A filter whose numbers fit a `u32` and whose words fit a `u64` is decoded from its encoding.
pub decode-encode_bloom :
    (f : BloomFilter)
    → f.num_hashes < 2 ^ 32
    → f.num_bits < 2 ^ 32
    → length f.bits < 2 ^ 32
    → All IsU64 f.bits
    → decode (encode f) ≡ ok f
unfolding decode encode
decode-encode_bloom f hashes bits count fits =
    let words = encode_words f.bits in
    let counted = to_le_bytes 4 (as_u32 (length f.bits)) ++ words in
    let sized = to_le_bytes 4 (as_u32 f.num_bits) ++ counted in
    let h0 : At (encode f) 0 (to_le_bytes 4 (as_u32 f.num_hashes) ++ sized) = At-start (encode f) in
    let h4 : At (encode f) 4 sized = At-le_next 4 (as_u32 f.num_hashes) sized h0 in
    let h8 : At (encode f) 8 counted = At-le_next 4 (as_u32 f.num_bits) counted h4 in
    let h12 : At (encode f) 12 words = At-le_next 4 (as_u32 (length f.bits)) words h8 in
    let r0 : u32_at (encode f) 0 ≡ f.num_hashes =
      At-le 4 (as_u32 f.num_hashes) sized h0 (omega arith)
      ∙ (let q : as_u32 f.num_hashes ≡ f.num_hashes = omega arith in q) in
    let r4 : u32_at (encode f) 4 ≡ f.num_bits =
      At-le 4 (as_u32 f.num_bits) counted h4 (omega arith)
      ∙ (let q : as_u32 f.num_bits ≡ f.num_bits = omega arith in q) in
    let r8 : u32_at (encode f) 8 ≡ length f.bits =
      At-le 4 (as_u32 (length f.bits)) words h8 (omega arith)
      ∙ (let q : as_u32 (length f.bits) ≡ length f.bits = omega arith in q) in
    rw (decode, r0, r4, r8, decode_words-At f.bits 12 fits h12)
      (ground (arith, h12.total, length-encode_words f.bits))
