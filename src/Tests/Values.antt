-- ===== src/Tests/Values.antt =====
-- Runs of the code of src/engine.rs on values and keys, and of src/filter/bloom.rs.
use rust_kvdb.Prelude.{
  ◌*◌, ◌/◌, ◌≡◌, refl, arith, leb, if◌then◌else◌, true, false, none, some, [], ◌∷◌, ◌++◌, All,
}
use rust_kvdb.Bytes.Le.{to_le_bytes, from_le_bytes}
use rust_kvdb.Bytes.Order.{compare_bytes, bytes_lt}
use rust_kvdb.KvError.{ok}
use rust_kvdb.Bloom.{BloomFilter, build, may_contain}
use rust_kvdb.Bloom.Member.{may_contain-build}
use rust_kvdb.Engine.Value.{encode_with_seq, decode_with_seq, encode_ttl, unpack_value, next_key}
use rust_kvdb.Engine.Value.Laws.{
  unpack_value-encode_ttl, unpack_value-encode_with_seq, next_key-in_range,
}

program : Unit {0}
unfolding encode_with_seq decode_with_seq unpack_value next_key to_le_bytes from_le_bytes
    compare_bytes
program = tt

-- A value of nine bytes behind a 1 is taken for one with an expiry time.
unpack_value-marked :
    unpack_value 7 (encode_with_seq (1 ∷ 0 ∷ 0 ∷ 0 ∷ 0 ∷ 0 ∷ 0 ∷ 0 ∷ 0 ∷ 5 ∷ []) 1) ≡ none
unfolding program
unpack_value-marked = refl

-- A value that a batch stored has no sequence number, and loses its first eight bytes.
unpack_value-unnumbered : unpack_value 7 (2 ∷ 2 ∷ 2 ∷ 2 ∷ 2 ∷ 2 ∷ 2 ∷ 2 ∷ 3 ∷ []) ≡ some (3 ∷ [])
unfolding program
unpack_value-unnumbered = refl

unpack_value-encode_ttl_example :
    unpack_value 10 (encode_with_seq (encode_ttl (5 ∷ []) 20) 1)
    ≡ (if leb 20 10 then none else some (5 ∷ []))
unpack_value-encode_ttl_example =
    unpack_value-encode_ttl 10 (5 ∷ []) 1 20 (omega arith) (omega arith)

unpack_value-encode_with_seq_example :
    unpack_value 10 (encode_with_seq (5 ∷ 6 ∷ []) 1) ≡ some (5 ∷ 6 ∷ [])
unfolding program
unpack_value-encode_with_seq_example =
    unpack_value-encode_with_seq 10 (5 ∷ 6 ∷ []) 1 (omega arith) refl refl

next_key-in_range_example :
    (bytes_lt (((b'a' ∷ []) ++ (b'b' ∷ 0xFF ∷ [])) ++ (7 ∷ [])) ((b'a' ∷ []) ++ (b'b' ∷ 0xFF ∷ []))
      ≡ false)
    × (bytes_lt
          (((b'a' ∷ []) ++ (b'b' ∷ 0xFF ∷ [])) ++ (7 ∷ []))
          (next_key ((b'a' ∷ []) ++ (b'b' ∷ 0xFF ∷ [])))
        ≡ true)
next_key-in_range_example = next_key-in_range (b'a' ∷ []) b'b' (0xFF ∷ []) (7 ∷ []) (omega arith)

may_contain-build_example :
    (f : BloomFilter) × (build (λ n. n * 69 / 100) ((b'a' ∷ []) ∷ (b'b' ∷ []) ∷ []) 10 ≡ ok f)
    × All (λ key. may_contain key f ≡ ok true) ((b'a' ∷ []) ∷ (b'b' ∷ []) ∷ [])
    × (f.num_bits ≡ 64)
may_contain-build_example =
    may_contain-build (λ n. n * 69 / 100) ((b'a' ∷ []) ∷ (b'b' ∷ []) ∷ []) 10 (omega arith)
