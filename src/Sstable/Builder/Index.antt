-- ===== src/Sstable/Builder/Index.antt =====
-- The index block, as it is written and read.
use rust_kvdb.Prelude.{
  ℕ, ◌+◌, ◌^◌, ◌<◌, ◌≡◌, refl, ap, ◌∙◌, sym, arith, List, [], ◌∷◌, ◌++◌, length, All, drop,
  append_assoc,
}
use rust_kvdb.Bytes.{Bytes}
use rust_kvdb.Bytes.Le.{to_le_bytes}
use rust_kvdb.Bytes.Cursor.{u32_at, as_u32, sized, At, At-append, At-le, At-le_next, At-sized}
use rust_kvdb.KvError.{ok}
use rust_kvdb.Sstable.Builder.{SstableBuilder, encode_index, write_index_block}
use rust_kvdb.Sstable.Reader.{parse_entries, parse_index}

-- An offset and a key that fit their fields.
pub record IsIndexEntry (e : ℕ × Bytes) : Type 0 where
  pub offset_fits : e.0 < 2 ^ 32
  pub key_fits : length e.1 < 2 ^ 32

parse_entries-At :
    {buf : Bytes} (entries : List (ℕ × Bytes)) (pos : ℕ) (s : Bytes)
    → All IsIndexEntry entries
    → At buf pos (encode_index entries ++ s)
    → parse_entries (length entries) buf pos ≡ ok entries
unfolding parse_entries encode_index
parse_entries-At [] pos s fits h = refl
parse_entries-At {buf} ((offset, key) ∷ entries) pos s (f, fits) h =
    let tail = encode_index entries ++ s in
    let h0 : At buf pos (to_le_bytes 4 offset ++ (sized key ++ tail)) =
      let q =
        append_assoc (to_le_bytes 4 offset) (sized key ++ encode_index entries) s
        ∙ ap (◌++◌ (to_le_bytes 4 offset)) (append_assoc (sized key) (encode_index entries) s) in
      rw q at h in
    let r : u32_at buf pos ≡ offset = At-le 4 offset (sized key ++ tail) h0 f.offset_fits in
    let k = At-sized key tail (At-le_next 4 offset (sized key ++ tail) h0) f.key_fits in
    let q : pos + 8 ≡ pos + 4 + 4 = omega arith in
    let rest = parse_entries-At entries (pos + 4 + 4 + length key) s fits k.after in
    rw (parse_entries, r, q, k.len, k.bytes, rest) (ground (arith, k.fits))

-- The index that the builder writes at the end of its file is read back from there, whatever
-- follows it: the offset and the last key of each block, in order. The offsets, the lengths of the
-- keys and the number of blocks must fit a `u32`.
pub parse_index-write_index_block :
    (b : SstableBuilder) (s : Bytes)
    → length b.index_entries < 2 ^ 32
    → All IsIndexEntry b.index_entries
    → parse_index ((write_index_block b).file ++ s) (length b.file) ≡ ok b.index_entries
unfolding parse_index write_index_block
parse_index-write_index_block b s few fits =
    let n = as_u32 (length b.index_entries) in
    let entries = encode_index b.index_entries in
    let count = to_le_bytes 4 n ++ entries in
    let buf = (b.file ++ count) ++ s in
    let h0 : At buf 0 (b.file ++ (count ++ s)) =
      let q = append_assoc b.file count s in
      record { suffix = q; total = omega (arith, ap length q) } in
    let start : 0 + length b.file ≡ length b.file = omega arith in
    let h1 : At buf (length b.file) (to_le_bytes 4 n ++ (entries ++ s)) =
      let h = At-append b.file (count ++ s) h0 in
      let q = append_assoc (to_le_bytes 4 n) entries s in
      record {
        suffix = ap (λ i. drop i buf) (sym start) ∙ h.suffix ∙ q;
        total = omega (arith, h.total, ap length q);
      } in
    let h2 : At buf (length b.file + 4) (entries ++ s) = At-le_next 4 n (entries ++ s) h1 in
    let same : n ≡ length b.index_entries = omega arith in
    let r : u32_at buf (length b.file) ≡ length b.index_entries =
      At-le 4 n (entries ++ s) h1 (omega arith) ∙ same in
    rw (parse_index, r, parse_entries-At b.index_entries (length b.file + 4) s fits h2)
      (ground (arith, h2.total))
