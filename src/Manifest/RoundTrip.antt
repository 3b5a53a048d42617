-- ===== src/Manifest/RoundTrip.antt =====
-- `Manifest::decode` reads what `Manifest::encode` writes, but for the levels in the entries.
use rust_kvdb.Prelude.{
  ℕ, ◌+◌, ◌≤◌, ◌<◌, ◌^◌, List, [], ◌∷◌, ◌++◌, length, arith, ◌≡◌, refl, map, All, append_assoc,
  append-nil, ◌∙◌, String, ltb, false,
}
use rust_kvdb.Bytes.{Bytes, IsU64}
use rust_kvdb.Bytes.Order.{compare_bytes}
use rust_kvdb.Bytes.Le.{to_le_bytes}
use rust_kvdb.Bytes.Cursor.{
  slice, u32_at, as_u32, sized, At, At-start, At-le, At-le_next, At-append, At-slice, At-sized,
}
use rust_kvdb.KvError.{ok}
use rust_kvdb.Manifest.{
  SstMeta, Manifest, magic, version, encode_sst, encode_ssts, encode_levels, encode, decode_bytes,
  decode_sst_meta, decode_ssts, decode_levels, decode,
}

-- The file does not hold the `level` of an entry: a decoded entry has level 0.
abbrev pub unlevelled : SstMeta → SstMeta
unlevelled sst = record sst { level = 0 }

-- The numbers and lengths fit their fields.
pub record IsEncodable (sst : SstMeta) : Type 0 where
  pub id_fits : IsU64 sst.id
  pub min_fits : length sst.min_key < 2 ^ 32
  pub max_fits : length sst.max_key < 2 ^ 32

pub record IsLevel (level : List SstMeta) : Type 0 where
  pub count : length level < 2 ^ 32
  pub entries : All IsEncodable level

decode_bytes-At :
    {buf : Bytes} {pos : ℕ} (k s : Bytes) (field : String)
    → At buf pos (sized k ++ s)
    → length k < 2 ^ 32
    → (decode_bytes buf pos field ≡ ok (k, pos + 4 + length k)) × At buf (pos + 4 + length k) s
unfolding decode_bytes
decode_bytes-At {buf} {pos} k s field h lt =
    let v = At-sized k s h lt in
    let counted : ltb (length buf) (pos + 4) ≡ false = ground (arith, v.fits) in
    let whole : ltb (length buf) (pos + 4 + length k) ≡ false = ground (arith, v.fits) in
    (rw (counted, v.len, whole, v.bytes) refl, v.after)

abbrev end_of : ℕ → SstMeta → ℕ
end_of pos sst = pos + 8 + 4 + length sst.min_key + 4 + length sst.max_key

decode_sst_meta-At :
    {buf : Bytes} {pos : ℕ} (sst : SstMeta) (s : Bytes)
    → IsEncodable sst
    → At buf pos (encode_sst sst ++ s)
    → (decode_sst_meta buf pos ≡ ok (unlevelled sst, end_of pos sst)) × At buf (end_of pos sst) s
unfolding decode_sst_meta encode_sst
decode_sst_meta-At {buf} {pos} sst s fits h =
    let keys = sized sst.min_key ++ (sized sst.max_key ++ s) in
    let h0 : At buf pos (to_le_bytes 8 sst.id ++ keys) = rw (append_assoc, append_assoc) at h in
    let h8 : At buf (pos + 8) keys = At-le_next 8 sst.id keys h0 in
    let (first, h1) =
      decode_bytes-At sst.min_key (sized sst.max_key ++ s) "min_key" h8 fits.min_fits in
    let (second, h2) = decode_bytes-At sst.max_key s "max_key" h1 fits.max_fits in
    (ground (arith, At-le 8 sst.id keys h0 fits.id_fits, h8.total, first, second), h2)

decode_ssts-At :
    {buf : Bytes} (ssts : List SstMeta) (pos : ℕ) (s : Bytes)
    → All IsEncodable ssts
    → At buf pos (encode_ssts ssts ++ s)
    → (pos' : ℕ) × (decode_ssts (length ssts) buf pos ≡ ok (map unlevelled ssts, pos'))
      × At buf pos' s
unfolding decode_ssts encode_ssts
decode_ssts-At {buf} [] pos s fits h = (pos, refl, h)
decode_ssts-At {buf} (sst ∷ ssts) pos s (f, fits) h =
    let h0 : At buf pos (encode_sst sst ++ (encode_ssts ssts ++ s)) =
      rw (append_assoc (encode_sst sst) (encode_ssts ssts) s) at h in
    let (one, h1) = decode_sst_meta-At sst (encode_ssts ssts ++ s) f h0 in
    let (pos', more, h2) = decode_ssts-At ssts (end_of pos sst) s fits h1 in
    (pos', rw (one, more) refl, h2)

decode_levels-At :
    {buf : Bytes} (levels : List (List SstMeta)) (pos : ℕ) (s : Bytes)
    → All IsLevel levels
    → At buf pos (encode_levels levels ++ s)
    → (pos' : ℕ) × (decode_levels (length levels) buf pos ≡ ok (map (map unlevelled) levels, pos'))
      × At buf pos' s
unfolding decode_levels encode_levels
decode_levels-At {buf} [] pos s fits h = (pos, refl, h)
decode_levels-At {buf} (level ∷ levels) pos s (f, fits) h =
    let n = as_u32 (length level) in
    let rest = encode_ssts level ++ (encode_levels levels ++ s) in
    let h0 : At buf pos (to_le_bytes 4 n ++ rest) = rw (append_assoc, append_assoc) at h in
    let count : u32_at buf pos ≡ length level =
      At-le 4 n rest h0 (omega arith) ∙ (let e : n ≡ length level = omega (arith, f.count) in e) in
    let h4 : At buf (pos + 4) rest = At-le_next 4 n rest h0 in
    let (p1, one, h1) = decode_ssts-At level (pos + 4) (encode_levels levels ++ s) f.entries h4 in
    let (p2, more, h2) = decode_levels-At levels p1 s fits h1 in
    let counted : ltb (length buf) (pos + 4) ≡ false = ground (arith, h4.total) in
    (p2, rw (counted, count, one, more) refl, h2)

-- What stands where in an encoded manifest.
pub record Parts (buf : Bytes) (m : Manifest) : Type 0 where
  pub long : 12 ≤ length buf
  pub starts : slice buf 0 4 ≡ magic
  pub versioned : u32_at buf 4 ≡ version
  pub count : u32_at buf 8 ≡ length m.levels
  pub stop : ℕ
  pub levels : decode_levels (length m.levels) buf 12 ≡ ok (map (map unlevelled) m.levels, stop)
  pub total : length buf ≡ stop

pub encode-Parts :
    {buf : Bytes} (m : Manifest)
    → length m.levels < 2 ^ 32
    → All IsLevel m.levels
    → At buf 0 (encode m)
    → Parts buf m
unfolding encode
encode-Parts {buf} m few fits h =
    let n = as_u32 (length m.levels) in
    let counted = to_le_bytes 4 n ++ encode_levels m.levels in
    let h4 : At buf 4 (to_le_bytes 4 version ++ counted) = At-append magic _ h in
    let h8 : At buf 8 counted = At-le_next 4 version counted h4 in
    let h12 : At buf 12 (encode_levels m.levels ++ []) =
      rw append-nil (At-le_next 4 n (encode_levels m.levels) h8) in
    let same : n ≡ length m.levels = omega arith in
    let (stop, levels, end) = decode_levels-At m.levels 12 [] fits h12 in
    record {
      long = omega (arith, h12.total);
      starts = At-slice magic _ h;
      versioned = At-le 4 version counted h4 (omega arith);
      count = At-le 4 n (encode_levels m.levels) h8 (omega arith) ∙ same;
      stop = stop;
      levels = levels;
      total = omega (arith, end.total);
    }

decode-Parts :
    {buf : Bytes} {m : Manifest}
    → Parts buf m
    → decode buf ≡ ok (record { levels = map (map unlevelled) m.levels })
unfolding decode compare_bytes
decode-Parts {buf} p =
    let long : ltb (length buf) 12 ≡ false = ground (arith, p.long) in
    let at_8 : ltb (length buf) 8 ≡ false = ground (arith, p.long) in
    let at_4 : ltb (length buf) 4 ≡ false = ground (arith, p.long) in
    rw (long, at_4, at_8, p.starts, p.versioned, p.count, p.levels) refl

-- A manifest is decoded from its encoding with the same tables in the same order at the same
-- levels; only the `level` field of each entry comes back as 0, whatever it was. The ids, the
-- lengths of the keys and the numbers of entries and levels must fit their fields.
pub decode-encode_manifest :
    (m : Manifest)
    → length m.levels < 2 ^ 32
    → All IsLevel m.levels
    → decode (encode m) ≡ ok (record { levels = map (map unlevelled) m.levels })
decode-encode_manifest m few fits = decode-Parts (encode-Parts m few fits (At-start (encode m)))
