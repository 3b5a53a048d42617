-- ===== src/Wal/Crash.antt =====
-- A crash of the machine while the log is written: what `WALReader` finds afterwards.
use rust_kvdb.Prelude.{
  ℕ, ◌≡◌, refl, sym, ap, ◌∙◌, List, [], ◌∷◌, ◌++◌, none, ◌⊎◌, inl, inr, All, All-append, ap₂,
  append_assoc, append-nil,
}
use rust_kvdb.Bytes.{Bytes}
use rust_kvdb.Wal.Record.{Record, encode}
use rust_kvdb.Wal.Writer.{WalWriter, Write, Sync, open_append, append_record, flush}
use rust_kvdb.Wal.Reader.{end, next}
use rust_kvdb.Wal.Reader.Replay.{reader, encode_all, IsReadable, next_torn}

-- A prefix of two parts ends inside the first, or holds it.
split_prefix :
    (a b kept lost : Bytes)
    → kept ++ lost ≡ a ++ b
    → ((x : ℕ) × (back : Bytes) × (kept ++ (x ∷ back) ≡ a))
      ⊎ ((more : Bytes) × (kept ≡ a ++ more) × (more ++ lost ≡ b))
split_prefix [] b kept lost e = inr (kept, refl, e)
split_prefix (y ∷ a) b [] lost e = inl (y, a, refl)
split_prefix (y ∷ a) b (z ∷ kept) lost e = elim (split_prefix a b kept lost (cc)) [
  | inl (x, back, p) ↦ inl (x, back, cc)
  | inr (more, p, q) ↦ inr (more, cc, q)
]

module _ (crc32 : Bytes → ℕ) where
  -- Appends that all succeed.
  unfoldable pub append_all : WalWriter → List Record → WalWriter
  unfolding append_record
  append_all w [] = w
  append_all w (r ∷ rs) = append_all (append_record crc32 Write.done w r).0 rs

  append_all_lem :
      (w : WalWriter) (rs : List Record)
      → ((append_all w rs).synced ≡ w.synced)
        × ((append_all w rs).pending ≡ w.pending ++ encode_all crc32 rs)
  unfolding append_all
  append_all_lem w [] = (refl, sym (append-nil w.pending))
  append_all_lem w (r ∷ rs) =
      let (same, more) = append_all_lem (append_record crc32 Write.done w r).0 rs in
      (same, more ∙ append_assoc w.pending (encode crc32 r) (encode_all crc32 rs))

  pub nothing_left : next crc32 (reader [] none) ≡ end
  unfolding next
  nothing_left = refl

  -- What a cut leaves of encoded records: some of them whole, and a torn one.
  cut_records :
      (rs : List Record) (kept lost : Bytes)
      → All (IsReadable crc32) rs
      → kept ++ lost ≡ encode_all crc32 rs
      → (saved : List Record) × (dropped : List Record) × (torn : Bytes) × (saved ++ dropped ≡ rs)
        × (kept ≡ encode_all crc32 saved ++ torn)
        × (next crc32 (reader torn none) ≡ end)
        × All (IsReadable crc32) saved
  cut_records [] [] lost good e = ([], [], [], refl, refl, nothing_left, tt)
  cut_records [] (x ∷ kept) lost good e = cc
  cut_records (r ∷ rs) kept lost (g, good) e =
      elim (split_prefix (encode crc32 r) (encode_all crc32 rs) kept lost e) [
        | inl (x, back, p) ↦ ([], r ∷ rs, kept, refl, refl, next_torn crc32 r g kept x back p, tt)
        | inr (more, p, q) ↦
            let (saved, dropped, torn, parts, bytes, stop, fine) =
              cut_records rs more lost good q in
            (
              r ∷ saved,
              dropped,
              torn,
              ap (◌∷◌ r) parts,
              p
                  ∙ ap (◌++◌ (encode crc32 r)) bytes
                  ∙ sym (append_assoc (encode crc32 r) (encode_all crc32 saved) torn),
              stop,
              (g, fine),
            )
      ]

  encode_all-append :
      (rs qs : List Record)
      → encode_all crc32 (rs ++ qs) ≡ encode_all crc32 rs ++ encode_all crc32 qs
  encode_all-append [] qs = refl
  encode_all-append (r ∷ rs) qs =
      ap (◌++◌ (encode crc32 r)) (encode_all-append rs qs)
      ∙ sym (append_assoc (encode crc32 r) (encode_all crc32 rs) (encode_all crc32 qs))

  -- A log that was created, in which `flushed` was written and flushed, and then `later` written.
  abbrev pub log_of : List Record → List Record → WalWriter
  log_of flushed later = append_all (flush Sync.done (append_all (open_append []) flushed)).0 later

  log_of_lem :
      (flushed later : List Record)
      → ((log_of flushed later).synced ≡ encode_all crc32 flushed)
        × ((log_of flushed later).pending ≡ encode_all crc32 later)
  unfolding flush open_append
  log_of_lem flushed later =
      let first = append_all_lem (open_append []) flushed in
      let w : WalWriter = (flush Sync.done (append_all (open_append []) flushed)).0 in
      let second = append_all_lem w later in (second.0 ∙ ap₂ ◌++◌ first.0 first.1, second.1)

  -- The file after a crash: the encodings of the flushed records and of a prefix of the later
  -- ones, and a torn record at which the reader stops.
  pub crash_file :
      (flushed later : List Record) (kept lost : Bytes)
      → All (IsReadable crc32) flushed
      → All (IsReadable crc32) later
      → kept ++ lost ≡ (log_of flushed later).pending
      → (saved : List Record) × (dropped : List Record) × (torn : Bytes) × (saved ++ dropped
          ≡ later)
        × ((log_of flushed later).synced ++ kept ≡ encode_all crc32 (flushed ++ saved) ++ torn)
        × (next crc32 (reader torn none) ≡ end)
        × All (IsReadable crc32) (flushed ++ saved)
  crash_file flushed later kept lost good fine e =
      let (synced, pending) = log_of_lem flushed later in
      let (saved, dropped, torn, parts, bytes, stop, whole) =
        cut_records later kept lost fine (e ∙ pending) in
      (
        saved,
        dropped,
        torn,
        parts,
        ap₂ ◌++◌ synced bytes
            ∙ sym (append_assoc (encode_all crc32 flushed) (encode_all crc32 saved) torn)
            ∙ ap (λ (t : Bytes). t ++ torn) (sym (encode_all-append flushed saved)),
        stop,
        All-append (IsReadable crc32) flushed saved good whole,
      )
