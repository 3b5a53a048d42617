-- ===== src/Manifest/Torn.antt =====
-- A manifest file that a crash cut short: `Manifest::save` writes in place, so a reader may meet one.
use rust_kvdb.Prelude.{
  ℕ, zero, suc, ◌+◌, ◌≤◌, ◌<◌, ◌^◌, ltb, false, List, ◌∷◌, ◌++◌, length, arith, ◌≡◌, ◌≢◌, ap, All,
  ◌∙◌, sym, String, length-append, Bool-cases, inl, inr,
}
use rust_kvdb.Bytes.{Bytes}
use rust_kvdb.Bytes.Le.{from_le_bytes}
use rust_kvdb.Bytes.Cursor.{slice, u32_at, slice-append, At-start}
use rust_kvdb.KvError.{KvError, Result, ok, err, panic, >>=-inv, >>=-ne-panic, Result-cases}
use rust_kvdb.Manifest.{
  SstMeta, Manifest, encode, decode_bytes, decode_sst_meta, decode_ssts, decode_levels, decode,
}
use rust_kvdb.Manifest.RoundTrip.{IsLevel, encode-Parts}

module _ (buf more : Bytes) where
  -- A success ends inside the buffer, and does not depend on what follows it.
  abbrev Stays {ℓ} : {A : Type ℓ} → (Bytes → Result (A × ℕ)) → Type ℓ
  Stays {A = A} read =
      (r : A × ℕ) → read buf ≡ ok r → (r.1 ≤ length buf) × (read (buf ++ more) ≡ ok r)

  decode_bytes-append : (pos : ℕ) (field : String) → Stays (λ b. decode_bytes b pos field)
  unfolding decode_bytes
  decode_bytes-append pos field r h = ground (
    arith,
    slice-append buf more pos 4,
    slice-append buf more (pos + 4) (u32_at buf pos),
    length-append buf more,
  )

  decode_sst_meta-append : (pos : ℕ) → Stays (λ b. decode_sst_meta b pos)
  unfolding decode_sst_meta
  decode_sst_meta-append pos r h = elim (Bool-cases (ltb (length buf) (pos + 8))) [
    | inl short ↦ absurd (ground arith)
    | inr long ↦
        let (k, hk, h1) = >>=-inv _ (decode_bytes buf (pos + 8) "min_key") (rw long at h) in
        let (l, hl, h2) = >>=-inv _ (decode_bytes buf k.1 "max_key") h1 in
        let (ik, ek) = decode_bytes-append (pos + 8) "min_key" k hk in
        let (il, el) = decode_bytes-append k.1 "max_key" l hl in
        (
          ground arith,
          ground (arith, ek, el, h2, length-append buf more, slice-append buf more pos 8),
        )
  ]

  decode_ssts-append : (n pos : ℕ) → pos ≤ length buf → Stays (λ b. decode_ssts n b pos)
  unfolding decode_ssts
  decode_ssts-append zero pos inside r h = (ground arith, h)
  decode_ssts-append (suc n) pos inside r h =
      let (a, ha, h1) = >>=-inv _ (decode_sst_meta buf pos) h in
      let (b, hb, h2) = >>=-inv _ (decode_ssts n buf a.1) h1 in
      let (ia, ea) = decode_sst_meta-append pos a ha in
      let (ib, eb) = decode_ssts-append n a.1 ia b hb in (ground arith, rw (ea, eb) h2)

  decode_levels-append : (n pos : ℕ) → pos ≤ length buf → Stays (λ b. decode_levels n b pos)
  unfolding decode_levels
  decode_levels-append zero pos inside r h = (ground arith, h)
  decode_levels-append (suc n) pos inside r h = elim (Bool-cases (ltb (length buf) (pos + 4))) [
    | inl short ↦ absurd (ground arith)
    | inr long ↦
        let (a, ha, h1) = >>=-inv _ (decode_ssts (u32_at buf pos) buf (pos + 4)) (rw long at h) in
        let (b, hb, h2) = >>=-inv _ (decode_levels n buf a.1) h1 in
        let (ia, ea) = decode_ssts-append (u32_at buf pos) (pos + 4) (ground arith) a ha in
        let (ib, eb) = decode_levels-append n a.1 ia b hb in
        let s4 : slice (buf ++ more) pos 4 ≡ slice buf pos 4 =
          slice-append buf more pos 4 (ground arith) in
        let long' : ltb (length (buf ++ more)) (pos + 4) ≡ false =
          ground (arith, length-append buf more) in
        (ground arith, rw (long', s4, ea, eb) h2)
  ]

decode_bytes-ne-panic :
    (buf : Bytes) (pos : ℕ) (field : String) → decode_bytes buf pos field ≢ panic
unfolding decode_bytes
decode_bytes-ne-panic buf pos field = ground arith

decode_sst_meta-ne-panic : (buf : Bytes) (pos : ℕ) → decode_sst_meta buf pos ≢ panic
unfolding decode_sst_meta
decode_sst_meta-ne-panic buf pos = elim (Bool-cases (ltb (length buf) (pos + 8))) [
  | inl short ↦ rw short (λ p. cc)
  | inr long ↦ rw long (
      >>=-ne-panic _ _ (decode_bytes-ne-panic buf (pos + 8) "min_key")
        λ k. >>=-ne-panic _ _ (decode_bytes-ne-panic buf k.1 "max_key") λ l p. cc)
]

decode_ssts-ne-panic : (n : ℕ) (buf : Bytes) (pos : ℕ) → decode_ssts n buf pos ≢ panic
unfolding decode_ssts
decode_ssts-ne-panic zero buf pos = λ p. cc
decode_ssts-ne-panic (suc n) buf pos =
    >>=-ne-panic _ _ (decode_sst_meta-ne-panic buf pos)
      λ k. >>=-ne-panic _ _ (decode_ssts-ne-panic n buf k.1) λ l p. cc

decode_levels-ne-panic : (n : ℕ) (buf : Bytes) (pos : ℕ) → decode_levels n buf pos ≢ panic
unfolding decode_levels
decode_levels-ne-panic zero buf pos = λ p. cc
decode_levels-ne-panic (suc n) buf pos = elim (Bool-cases (ltb (length buf) (pos + 4))) [
  | inl short ↦ rw short (λ p. cc)
  | inr long ↦ rw long (
      >>=-ne-panic _ _ (decode_ssts-ne-panic (u32_at buf pos) buf (pos + 4))
        λ k. >>=-ne-panic _ _ (decode_levels-ne-panic n buf k.1) λ l p. cc)
]

-- No file makes the decoder index out of range, which panics: it returns a manifest or an error.
pub decode-ne-panic : (buf : Bytes) → decode buf ≢ panic
unfolding decode
decode-ne-panic buf = ground (arith, decode_levels-ne-panic (u32_at buf 8) buf 12)

-- What a successful `decode` has read.
decode-inv :
    (buf : Bytes) (m : Manifest)
    → decode buf ≡ ok m
    → (12 ≤ length buf)
      × (r : List (List SstMeta) × ℕ) × (decode_levels (u32_at buf 8) buf 12 ≡ ok r)
unfolding decode
decode-inv buf m h = elim (Result-cases (decode_levels (u32_at buf 8) buf 12)) [
  | inl (r, e) ↦ (ground arith, r, e)
  | inr (inl (x, e)) ↦ absurd (ground arith)
  | inr (inr e) ↦ absurd (ground arith)
]

module _ (m : Manifest) (few : length m.levels < 2 ^ 32) (fits : All IsLevel m.levels)
    (front : Bytes) (x : ℕ) (lost : Bytes) (cut : front ++ (x ∷ lost) ≡ encode m) where
  torn_not_ok : (m' : Manifest) → decode front ≡ ok m' → ⊥
  torn_not_ok m' h =
      let p = encode-Parts m few fits (At-start (encode m)) in
      let (long, r, hr) = decode-inv front m' h in
      let (inside, same) = decode_levels-append front (x ∷ lost) (u32_at front 8) 12 long r hr in
      let count : u32_at front 8 ≡ length m.levels =
        ap from_le_bytes (sym (slice-append front (x ∷ lost) 8 4 long))
        ∙ ap (λ (t : Bytes). u32_at t 8) cut
        ∙ p.count in
      let whole : decode_levels (length m.levels) (encode m) 12 ≡ ok r = rw (← count, ← cut) same in
      let stops : r.1 ≡ p.stop = cc (whole, p.levels) in
      omega (arith, stops, p.total, ap length cut, length-append front (x ∷ lost))

  -- A manifest file cut short at any point is refused with an error; it is never read as a
  -- manifest with fewer tables. The ids, the lengths of the keys and the numbers of entries and
  -- levels of the manifest fit their fields.
  pub decode_torn : (e : KvError) × (decode front ≡ err e)
  decode_torn = elim (Result-cases (decode front)) [
    | inl (m', h) ↦ absurd (torn_not_ok m' h)
    | inr (inl found) ↦ found
    | inr (inr h) ↦ absurd (decode-ne-panic front h)
  ]
