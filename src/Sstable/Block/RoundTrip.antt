-- ===== src/Sstable/Block/RoundTrip.antt =====
-- `Block::decode` undoes `Block::encode`.
use rust_kvdb.Prelude.{
  ℕ, ◌+◌, ◌-◌, ◌^◌, ◌≤◌, ◌<◌, List, [], ◌∷◌, ◌++◌, length, take, drop, All, ◌≡◌, refl, ap, ◌∙◌,
  append-nil, append_assoc, take-append-drop, length-drop, arith,
}
use rust_kvdb.Bytes.{Bytes}
use rust_kvdb.Bytes.Le.{to_le_bytes}
use rust_kvdb.Bytes.Cursor.{
  slice, u16_at, u32_at, as_u32, sized, At, At-start, At-le, At-le_next, At-append, At-slice,
  At-sized,
}
use rust_kvdb.KvError.{ok}
use rust_kvdb.Sstable.Block.{
  Entry, Block, prefix_shared_len, as_u16, encode_entry, encode_entries, encode, shared_part,
  decode_value, decode_entry, decode_entries, decode,
}

-- The shared prefix of two keys is a prefix of both.
pub prefix_shared_len-le :
    (a b : Bytes) → (prefix_shared_len a b ≤ length a) × (prefix_shared_len a b ≤ length b)
unfolding prefix_shared_len
prefix_shared_len-le [] b = omega arith
prefix_shared_len-le (x ∷ a) [] = omega arith
prefix_shared_len-le (x ∷ a) (y ∷ b) = ground (arith, prefix_shared_len-le a b)

pub take-prefix_shared_len :
    (a b : Bytes) → take (prefix_shared_len a b) a ≡ take (prefix_shared_len a b) b
unfolding prefix_shared_len
take-prefix_shared_len [] [] = refl
take-prefix_shared_len [] (y ∷ b) = refl
take-prefix_shared_len (x ∷ a) [] = refl
take-prefix_shared_len (x ∷ a) (y ∷ b) = ground (arith, take-prefix_shared_len a b)

-- The lengths fit their fields.
pub record IsEntry (e : Entry) : Type 0 where
  pub key_fits : length e.0 < 2 ^ 16
  pub value_fits : length e.1 < 2 ^ 32

decode_value-At :
    {buf : Bytes} {pos : ℕ} (key value s : Bytes)
    → length value < 2 ^ 32
    → At buf pos (sized value ++ s)
    → (decode_value buf key pos ≡ ok ((key, value), pos + 4 + length value))
      × At buf (pos + 4 + length value) s
unfolding decode_value
decode_value-At {buf} {pos} key value s lt h =
    let v = At-sized value s h lt in (rw (v.len, v.bytes) (ground (arith, v.fits)), v.after)

module _ (prev_key : Bytes) (pos : ℕ) (e : Entry) (s : Bytes) (fits : IsEntry e) where
  abbrev shared : ℕ
  shared = prefix_shared_len prev_key e.0

  abbrev suffix : Bytes
  suffix = drop shared e.0

  abbrev stop : ℕ
  stop = pos + 4 + length suffix + 4 + length e.1

  decode_entry-At :
      {buf : Bytes}
      → At buf pos (encode_entry prev_key e ++ s)
      → (decode_entry buf prev_key pos ≡ ok (e, stop)) × At buf stop s
  unfolding decode_entry encode_entry shared_part
  decode_entry-At {buf} h =
      let tail = suffix ++ (sized e.1 ++ s) in
      let n = as_u16 (length suffix) in
      let (le_prev, le_key) = prefix_shared_len-le prev_key e.0 in
      let cut : length suffix ≡ length e.0 - shared = length-drop shared e.0 in
      let h0 : At buf pos (to_le_bytes 2 (as_u16 shared) ++ (to_le_bytes 2 n ++ tail)) =
        rw (append_assoc, append_assoc, append_assoc) at h in
      let h2 : At buf (pos + 2) (to_le_bytes 2 n ++ tail) = At-le_next 2 (as_u16 shared) _ h0 in
      let h4 : At buf (pos + 4) tail =
        let q : pos + 2 + 2 ≡ pos + 4 = omega arith in rw q at (At-le_next 2 n tail h2) in
      let r0 : u16_at buf pos ≡ shared =
        At-le 2 (as_u16 shared) _ h0 (omega arith)
        ∙ (let q : as_u16 shared ≡ shared = omega (arith, fits.key_fits) in q) in
      let r2 : u16_at buf (pos + 2) ≡ length suffix =
        At-le 2 n tail h2 (omega arith)
        ∙ (let q : n ≡ length suffix = omega (arith, fits.key_fits) in q) in
      let key : slice buf (pos + 4) (length suffix) ≡ suffix =
        At-slice suffix (sized e.1 ++ s) h4 in
      let whole : take shared prev_key ++ suffix ≡ e.0 =
        ap (λ (t : Bytes). t ++ suffix) (take-prefix_shared_len prev_key e.0)
        ∙ take-append-drop shared e.0 in
      let h5 : At buf (pos + 4 + length suffix) (sized e.1 ++ s) =
        At-append suffix (sized e.1 ++ s) h4 in
      let (value, h6) = decode_value-At e.0 e.1 s fits.value_fits h5 in
      let front : shared_part shared prev_key ≡ ok (take shared prev_key) = ground arith in
      (rw (r0, r2, key, front, whole, value) (ground (arith, h4.total, h5.total)), h6)

decode_entries-At :
    {buf : Bytes} (es : List Entry) (prev_key : Bytes) (pos : ℕ) (s : Bytes)
    → All IsEntry es
    → At buf pos (encode_entries prev_key es ++ s)
    → (stop : ℕ) × (decode_entries (length es) buf prev_key pos ≡ ok (es, stop)) × At buf stop s
unfolding decode_entries encode_entries
decode_entries-At [] prev_key pos s fits h = (pos, refl, h)
decode_entries-At {buf} (e ∷ es) prev_key pos s (f, fits) h =
    let h0 : At buf pos (encode_entry prev_key e ++ (encode_entries e.0 es ++ s)) =
      rw (append_assoc (encode_entry prev_key e) (encode_entries e.0 es) s) at h in
    let (one, h1) = decode_entry-At prev_key pos e (encode_entries e.0 es ++ s) f h0 in
    let (stop, more, h2) = decode_entries-At es e.0 _ s fits h1 in (stop, rw (one, more) refl, h2)

-- Decoding an encoded block gives back its entries, in order, and sets the size to the number of
-- encoded bytes behind the entry count. Keys must be shorter than 2^16 bytes, values shorter than
-- 2^32, and there must be fewer than 2^32 entries.
pub decode-encode_block :
    (b : Block)
    → length b.entries < 2 ^ 32
    → All IsEntry b.entries
    → decode (encode b) ≡ ok (record b { encoded_size = length (encode b) - 4 })
unfolding decode
decode-encode_block b few fits =
    let n = as_u32 (length b.entries) in
    let h : At (encode b) 0 (to_le_bytes 4 n ++ encode_entries [] b.entries) =
      unfold encode in At-start (encode b) in
    let h4 : At (encode b) 4 (encode_entries [] b.entries ++ []) =
      rw append-nil (At-le_next 4 n (encode_entries [] b.entries) h) in
    let count : u32_at (encode b) 0 ≡ length b.entries =
      At-le 4 n (encode_entries [] b.entries) h (omega arith)
      ∙ (let q : n ≡ length b.entries = omega arith in q) in
    let (stop, all, end) = decode_entries-At b.entries [] 4 [] fits h4 in
    rw (count, all) (ground (arith, h4.total, end.total))
