-- ===== src/Sstable/Builder/Finish.antt =====
-- The file that the builder finishes, as the reader opens it.
use rust_kvdb.Prelude.{
  ℕ, ◌+◌, ◌-◌, ◌*◌, ◌^◌, ◌≤◌, ◌<◌, ltb, true, false, List, [], ◌∷◌, ◌++◌, length, map, All,
  length-append, append-nil, ◌≡◌, refl, ap, ap₂, sym, ◌∙◌, arith, is_empty, ◌⊎◌, inl, inr,
}
use rust_kvdb.Bytes.{Bytes}
use rust_kvdb.Bytes.Le.{to_le_bytes, length-to_le_bytes}
use rust_kvdb.Bytes.Cursor.{
  as_u32, u32_at, slice, At, At-start, At-append, At-le, At-le_next, At-slice,
}
use rust_kvdb.KvError.{ok}
use rust_kvdb.Bloom
use rust_kvdb.Bloom.{BloomFilter}
use rust_kvdb.Bloom.Member.{Built, build_lem}
use rust_kvdb.Bloom.RoundTrip.{decode-encode_bloom}
use rust_kvdb.Sstable.Block
use rust_kvdb.Sstable.Block.{Entry}
use rust_kvdb.Sstable.Block.RoundTrip.{IsEntry}
use rust_kvdb.Sstable.Builder.{
  SstableBuilder, finish, write_index_block, encode_index, default_bits_per_key,
}
use rust_kvdb.Sstable.Builder.Index.{IsIndexEntry, parse_index-write_index_block}
use rust_kvdb.Sstable.Builder.Layout.{
  Layout, written, index_of, last_of, all_entries, all_entries-append, flush_block_lem,
}
use rust_kvdb.Sstable.Reader.{SstableReader, open_with_cache}

-- What `finish` writes: the blocks, the index, the filter, and the two offsets.
abbrev pub file_of : SstableBuilder → BloomFilter → Bytes
file_of b bloom =
    (write_index_block b).file
    ++ (Bloom.encode bloom
        ++ (to_le_bytes 4 b.bytes_written ++ to_le_bytes 4 (write_index_block b).bytes_written))

IsIndexEntry-last_of :
    (es : List Entry) (offset : ℕ) → All IsEntry es → IsIndexEntry (as_u32 offset, last_of es)
IsIndexEntry-last_of [] offset fits = record { offset_fits = omega arith; key_fits = omega arith }
IsIndexEntry-last_of (e ∷ []) offset (f, fits) = record {
  offset_fits = omega arith;
  key_fits = omega (arith, f.key_fits);
}
IsIndexEntry-last_of (e ∷ f ∷ es) offset (_, fits) = IsIndexEntry-last_of (f ∷ es) offset fits

index_of-fits :
    (blocks : List (List Entry)) (offset : ℕ)
    → All (All IsEntry) blocks
    → All IsIndexEntry (index_of offset blocks)
index_of-fits [] offset fits = tt
index_of-fits (es ∷ blocks) offset (f, fits) =
    (IsIndexEntry-last_of es offset f, index_of-fits blocks _ fits)

length-index_of :
    (blocks : List (List Entry)) (offset : ℕ)
    → length (index_of offset blocks) ≤ length (written blocks)
unfolding Block.encode
length-index_of [] offset = omega arith
length-index_of (es ∷ blocks) offset =
    let n = as_u32 (length es) in
    let body = Block.encode_entries [] es in
    omega (
      arith,
      length-append (to_le_bytes 4 n ++ body) (written blocks),
      length-append (to_le_bytes 4 n) body,
      length-to_le_bytes 4 n,
      length-index_of blocks (offset + length (to_le_bytes 4 n ++ body)),
    )

-- The reader that comes out of the file.
abbrev pub reader_of : SstableBuilder → BloomFilter → ℕ → SstableReader
reader_of b bloom sst_id = record {
  contents = file_of b bloom;
  index = b.index_entries;
  index_offset = length b.file;
  bloom = bloom;
  sst_id = sst_id;
}

-- A file of fewer than 2^32 bytes is opened, and its index and its filter are those of the builder.
pub open_lem :
    (b : SstableBuilder) (blocks : List (List Entry)) (bloom : BloomFilter) (sst_id : ℕ)
    → Layout b blocks
    → All (All IsEntry) blocks
    → Built b.all_keys default_bits_per_key bloom
    → length b.all_keys * default_bits_per_key < 2 ^ 32
    → length (file_of b bloom) < 2 ^ 32
    → open_with_cache (file_of b bloom) sst_id ≡ ok (reader_of b bloom sst_id)
unfolding open_with_cache write_index_block
open_lem b blocks bloom sst_id l fits built few small =
    let b2 = write_index_block b in
    let filter = Bloom.encode bloom in
    let index = to_le_bytes 4 (as_u32 (length b.index_entries)) ++ encode_index b.index_entries in
    let o1 = b.bytes_written in
    let o2 = b2.bytes_written in
    let buf = file_of b bloom in
    let offsets = to_le_bytes 4 o1 ++ to_le_bytes 4 o2 in
    let h0 : At buf (0 + length b2.file) (filter ++ offsets) =
      At-append b2.file (filter ++ offsets) (At-start buf) in
    let h1 : At buf (0 + length b2.file + length filter) offsets = At-append filter offsets h0 in
    let h2 : At buf (0 + length b2.file + length filter + 4) (to_le_bytes 4 o2) =
      At-le_next 4 o1 (to_le_bytes 4 o2) h1 in
    let h2' : At buf (0 + length b2.file + length filter + 4) (to_le_bytes 4 o2 ++ []) =
      rw append-nil h2 in
    let len : length buf ≡ length b2.file + length filter + 8 =
      omega (arith, h2.total, length-to_le_bytes 4 o2) in
    let len2 : length b2.file ≡ length b.file + length index = length-append b.file index in
    let at1 : o1 ≡ length b.file = omega (arith, l.position, len, len2, small) in
    let at2 : o2 ≡ length b2.file = omega (arith, at1, len, len2, small) in
    let r1 : u32_at buf (length buf - 8) ≡ length b.file =
      ap (u32_at buf)
        (let q : length buf - 8 ≡ 0 + length b2.file + length filter = omega (arith, len) in q)
      ∙ At-le 4 o1 (to_le_bytes 4 o2) h1 (omega (arith, at1, len, len2, small))
      ∙ at1 in
    let r2 : u32_at buf (length buf - 4) ≡ length b2.file =
      ap (u32_at buf)
        (let q : length buf - 4 ≡ 0 + length b2.file + length filter + 4 = omega (arith, len) in q)
      ∙ At-le 4 o2 [] h2' (omega (arith, at2, len, small))
      ∙ at2 in
    let count : length b.index_entries ≤ length b.file =
      omega (arith, length-index_of blocks 0, ap length l.index, ap length l.file) in
    let parsed =
      parse_index-write_index_block b (filter ++ offsets) (omega (arith, count, len, len2, small))
        (rw l.index (index_of-fits blocks 0 fits)) in
    let start : 0 + length b2.file ≡ length b2.file = omega arith in
    let piece : slice buf (length b2.file) (length buf - 8 - length b2.file) ≡ filter =
      ap₂ (slice buf) (sym start)
        (let q : length buf - 8 - length b2.file ≡ length filter = omega (arith, len) in q)
      ∙ At-slice filter offsets h0 in
    let decoded : Bloom.decode filter ≡ ok bloom =
      decode-encode_bloom bloom (omega (arith, built.hashes)) (omega (arith, built.bits, few))
        (omega (arith, built.words, built.bits, few)) built.fit in
    let enough : ltb (length buf) 8 ≡ false = ground (arith, len) in
    let ordered : ltb (length buf - 8) (length b2.file) ≡ false = ground (arith, len) in
    rw (open_with_cache, r1, r2, enough, ordered, parsed, piece, decoded) refl

-- `finish`, once the block that was begun is written.
pub record Finished (b : SstableBuilder) (blocks : List (List Entry)) (contents : Bytes)
    : Type 0 where
  pub builder : SstableBuilder
  pub blocks' : List (List Entry)
  pub bloom : BloomFilter
  pub layout : Layout builder blocks'
  pub entries : all_entries blocks' ≡ all_entries blocks ++ b.current_block.entries
  pub keys : builder.all_keys ≡ map (λ e. e.0) (all_entries blocks')
  pub built : Built builder.all_keys default_bits_per_key bloom
  pub file : contents ≡ file_of builder bloom

same_keys : (b : SstableBuilder) → (write_index_block b).all_keys ≡ b.all_keys
unfolding write_index_block
same_keys b = refl

is_empty-cases :
    {A : Type 0} (xs : List A)
    → ((xs ≡ []) × (is_empty xs ≡ true)) ⊎ ((0 < length xs) × (is_empty xs ≡ false))
is_empty-cases [] = inl (refl, refl)
is_empty-cases (x ∷ xs) = inr (omega arith, refl)

pub finish_lem :
    (ln2_rounded : ℕ → ℕ) (b : SstableBuilder) (blocks : List (List Entry))
    → Layout b blocks
    → (contents : Bytes) × (finish ln2_rounded b ≡ ok contents) × Finished b blocks contents
unfolding finish
finish_lem ln2_rounded b blocks l = elim (is_empty-cases b.current_block.entries) [
  | inl (none_left, empty) ↦
      let (bloom, e, built) = build_lem ln2_rounded b.all_keys default_bits_per_key in
      (
        file_of b bloom,
        rw (finish, empty, same_keys b, e) refl,
        record {
          builder = b;
          blocks' = blocks;
          bloom = bloom;
          layout = l;
          entries =
              sym (append-nil (all_entries blocks))
              ∙ ap (◌++◌ (all_entries blocks)) (sym none_left);
          keys =
              l.keys
              ∙ ap (map (λ e. e.0))
                  (ap (◌++◌ (all_entries blocks)) none_left ∙ append-nil (all_entries blocks));
          built = built;
          file = refl;
        },
      )
  | inr (more, full) ↦
      let (b1, flushed, l1, new_block) = flush_block_lem b blocks l more in
      let es = b.current_block.entries in
      let (bloom, e, built) = build_lem ln2_rounded b1.all_keys default_bits_per_key in
      let last : b1.current_block.entries ≡ [] = ap (λ (c : Block.Block). c.entries) new_block in
      (
        file_of b1 bloom,
        rw (finish, full, flushed, same_keys b1, e) refl,
        record {
          builder = b1;
          blocks' = blocks ++ (es ∷ []);
          bloom = bloom;
          layout = l1;
          entries =
              all_entries-append blocks (es ∷ []) ∙ ap (◌++◌ (all_entries blocks)) (append-nil es);
          keys =
              l1.keys
              ∙ ap (map (λ e. e.0)) (
                  ap (◌++◌ (all_entries (blocks ++ (es ∷ [])))) last
                  ∙ append-nil (all_entries (blocks ++ (es ∷ []))));
          built = built;
          file = refl;
        },
      )
]
