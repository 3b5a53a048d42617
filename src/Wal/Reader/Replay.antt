-- ===== src/Wal/Reader/Replay.antt =====
-- The reader over whole records and over a torn tail.
use rust_kvdb.Prelude.{
  ℕ, zero, suc, ◌≤◌, ◌<◌, ◌^◌, List, [], ◌∷◌, ◌++◌, Option, none, length, ◌≡◌, refl, arith, ap, sym,
  ◌∙◌, append_assoc, length-append, drop_left, take_left, All,
}
use mathlib.Core.List.{foldl}
use native.Mathlib.Decide.{dec_lt}
use rust_kvdb.Bytes.{Bytes}
use rust_kvdb.Bytes.Le.{to_le_bytes, from_le_bytes, length-to_le_bytes, from-to_le_bytes}
use rust_kvdb.Bytes.Cursor.{as_u32}
use rust_kvdb.KvError.{IoError, ok}
use rust_kvdb.Wal.Record.{Record, IsRecord, crc_payload, encode}
use rust_kvdb.Wal.Record.RoundTrip.{body, length-body, length-encode, encode-body, decode-body}
use rust_kvdb.Wal.Reader.{
  WalReader, full, unexpected_eof, read_exact, end, item, next, for_each, replay,
}

abbrev pub reader : Bytes → Option IoError → WalReader
reader rest fault = record { rest = rest; fault = fault }

pub read_exact_full :
    (a s : Bytes) (n : ℕ) (fault : Option IoError)
    → n ≡ length a
    → read_exact n (reader (a ++ s) fault) ≡ full a (reader s fault)
unfolding read_exact
read_exact_full a s n fault e =
    rw e (ground (arith, length-append a s, take_left a s, drop_left a s))

-- A prefix that is at least as long as the first part holds it.
take-shorter :
    (a b c d : Bytes) → a ++ c ≡ b ++ d → length a ≤ length b → (t : Bytes) × (b ≡ a ++ t)
take-shorter [] b c d e h = (b, refl)
take-shorter (x ∷ a) [] c d e h = absurd (omega arith)
take-shorter (x ∷ a) (y ∷ b) c d e h =
    let (t, q) = take-shorter a b c d (cc) (omega arith) in (t, cc)

read_exact_short :
    (a : Bytes) (n : ℕ) → length a < n → read_exact n (reader a none) ≡ unexpected_eof
unfolding read_exact
read_exact_short a n h = ground arith

module _ (crc32 : Bytes → ℕ) where
  -- A file that holds the encodings of these records, one behind the other.
  abbrev pub encode_all : List Record → Bytes
  encode_all [] = []
  encode_all (r ∷ rs) = encode crc32 r ++ encode_all rs

  -- A record that the reader can read back.
  pub record IsReadable (r : Record) : Type 0 where
    pub fits : IsRecord r
    pub crc_fits : crc32 (crc_payload r) < 2 ^ 32

  module _ (r : Record) (readable : IsReadable r) where
    prefix_value : as_u32 (length (body crc32 r)) ≡ length (body crc32 r)
    prefix_value = omega (arith, length-body crc32 r, readable.fits.small)

    prefix_read :
        from_le_bytes (to_le_bytes 4 (as_u32 (length (body crc32 r)))) ≡ length (body crc32 r)
    prefix_read = from-to_le_bytes 4 _ (omega (arith, prefix_value)) ∙ prefix_value

    pub next-encode :
        (s : Bytes) (fault : Option IoError)
        → next crc32 (reader (encode crc32 r ++ s) fault) ≡ item (ok r) (reader s fault)
    unfolding next
    next-encode s fault =
        let n = as_u32 (length (body crc32 r)) in
        rw
          (
            encode-body,
            append_assoc,
            read_exact_full (to_le_bytes 4 n) (body crc32 r ++ s) 4 fault
                (sym (length-to_le_bytes 4 n)),
            prefix_read,
            read_exact_full (body crc32 r) s _ fault refl,
            decode-body crc32 r readable.fits readable.crc_fits,
          )
          refl

    -- A proper prefix of an encoded record, at the end of the file, is the end of the log.
    pub next_torn :
        (torn : Bytes) (x : ℕ) (lost : Bytes)
        → torn ++ (x ∷ lost) ≡ encode crc32 r
        → next crc32 (reader torn none) ≡ end
    unfolding next
    next_torn torn x lost e = elim (dec_lt (length torn) 4) [
      | yes few ↦ rw (read_exact_short torn 4 few) refl
      | no enough ↦
          let n = as_u32 (length (body crc32 r)) in
          let (tail, split) =
            take-shorter (to_le_bytes 4 n) torn (body crc32 r) (x ∷ lost)
              (sym (encode-body crc32 r) ∙ sym e) (omega (arith, length-to_le_bytes 4 n)) in
          let short : length tail < length (body crc32 r) = omega (
            arith,
            ap length split,
            ap length e,
            length-append (to_le_bytes 4 n) tail,
            length-append torn (x ∷ lost),
            length-encode crc32 r,
            length-body crc32 r,
            length-to_le_bytes 4 n,
          ) in
          rw
            (
              split,
              read_exact_full (to_le_bytes 4 n) tail 4 none (sym (length-to_le_bytes 4 n)),
              prefix_read,
              read_exact_short tail (length (body crc32 r)) short,
            )
            refl
    ]

  pub encode_all_long : (rs : List Record) → length rs ≤ length (encode_all rs)
  encode_all_long [] = omega arith
  encode_all_long (r ∷ rs) = omega (
    arith,
    encode_all_long rs,
    length-append (encode crc32 r) (encode_all rs),
    length-encode crc32 r,
  )

  module _ {ℓ} {S : Type ℓ} (step : S → Record → S) where
    for_each-encode_all :
        (rs : List Record) (torn : Bytes) (fuel : ℕ) (s : S)
        → All IsReadable rs
        → next crc32 (reader torn none) ≡ end
        → length rs < fuel
        → for_each crc32 step fuel (reader (encode_all rs ++ torn) none) s ≡ ok (foldl step s rs)
    unfolding for_each
    for_each-encode_all rs torn zero s good stop h = absurd (omega arith)
    for_each-encode_all [] torn (suc fuel) s good stop h = rw (stop, for_each) refl
    for_each-encode_all (r ∷ rs) torn (suc fuel) s (g, good) stop h =
        rw
          (
            append_assoc (encode crc32 r) (encode_all rs) torn,
            next-encode r g (encode_all rs ++ torn) none,
            for_each,
          )
          (for_each-encode_all rs torn fuel (step s r) good stop (omega arith))

    -- Replaying a log of whole records, with a tail behind them at which the reader stops, makes
    -- one step for each record, in order, and ends without an error.
    pub replay-encode_all :
        (rs : List Record) (torn : Bytes) (s : S)
        → All IsReadable rs
        → next crc32 (reader torn none) ≡ end
        → replay crc32 step (reader (encode_all rs ++ torn) none) s ≡ ok (foldl step s rs)
    unfolding replay
    replay-encode_all rs torn s good stop =
        for_each-encode_all rs torn _ s good stop
          (omega (arith, encode_all_long rs, length-append (encode_all rs) torn))
