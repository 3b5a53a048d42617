-- ===== src/Bytes/Cursor.antt =====
-- Reading a buffer at a position: `data[pos..pos + n]`, and what stands there.
use rust_kvdb.Prelude.{
  take-append, drop-append, length-drop, ◌%◌, ◌≤◌, append_assoc, ℕ, ◌+◌, ◌^◌, ◌<◌, ◌≡◌, refl, sym,
  ap, ◌∙◌, List, ◌++◌, arith, length, take, drop, length-append, take_left, drop_left, drop-drop,
}
use rust_kvdb.Bytes.Le.{to_le_bytes, from_le_bytes, length-to_le_bytes, from-to_le_bytes}

-- `data[pos..pos + n]`, for a range that the caller has checked
abbrev pub slice : List ℕ → ℕ → ℕ → List ℕ
slice xs pos n = take n (drop pos xs)

-- `data[pos]`; then the integers of more bytes, as in
-- `u32::from_le_bytes([data[pos], data[pos + 1], data[pos + 2], data[pos + 3]])`
abbrev pub u8_at : List ℕ → ℕ → ℕ
u8_at xs pos = from_le_bytes (slice xs pos 1)

abbrev pub u16_at : List ℕ → ℕ → ℕ
u16_at xs pos = from_le_bytes (slice xs pos 2)

abbrev pub u32_at : List ℕ → ℕ → ℕ
u32_at xs pos = from_le_bytes (slice xs pos 4)

abbrev pub u64_at : List ℕ → ℕ → ℕ
u64_at xs pos = from_le_bytes (slice xs pos 8)

-- The bytes of `xs` from `pos` on are `s`.
pub record At (xs : List ℕ) (pos : ℕ) (s : List ℕ) : Type 0 where
  pub suffix : drop pos xs ≡ s
  pub total : length xs ≡ pos + length s

pub At-start : (xs : List ℕ) → At xs 0 xs
At-start xs = record { suffix = refl; total = omega arith }

pub At-slice :
    {xs : List ℕ} {pos : ℕ} (a s : List ℕ) → At xs pos (a ++ s) → slice xs pos (length a) ≡ a
At-slice a s h = rw h.suffix (take_left a s)

pub At-append :
    {xs : List ℕ} {pos : ℕ} (a s : List ℕ) → At xs pos (a ++ s) → At xs (pos + length a) s
At-append {xs} {pos} a s h = record {
  suffix = drop-drop pos (length a) xs ∙ ap (drop (length a)) h.suffix ∙ drop_left a s;
  total = omega (arith, h.total, length-append a s);
}

-- An integer of `w` bytes that stands at the cursor is read back.
pub At-le :
    {xs : List ℕ} {pos : ℕ} (w v : ℕ) (s : List ℕ)
    → At xs pos (to_le_bytes w v ++ s)
    → v < 256 ^ w
    → from_le_bytes (slice xs pos w) ≡ v
At-le {xs} {pos} w v s h lt =
    ap from_le_bytes
      (ap (slice xs pos) (sym (length-to_le_bytes w v)) ∙ At-slice (to_le_bytes w v) s h)
    ∙ from-to_le_bytes w v lt

pub At-le_next :
    {xs : List ℕ} {pos : ℕ} (w v : ℕ) (s : List ℕ)
    → At xs pos (to_le_bytes w v ++ s)
    → At xs (pos + w) s
At-le_next w v s h = rw length-to_le_bytes at (At-append (to_le_bytes w v) s h)

-- `len as u32`, then the bytes: the form of every byte string in the file formats.
abbrev pub as_u32 : ℕ → ℕ
as_u32 n = n % 2 ^ 32

unfoldable pub sized : List ℕ → List ℕ
sized k = to_le_bytes 4 (as_u32 (length k)) ++ k

-- What a reader finds at a sized byte string.
pub record AtSized (xs : List ℕ) (pos : ℕ) (k s : List ℕ) : Type 0 where
  pub len : u32_at xs pos ≡ length k
  pub bytes : slice xs (pos + 4) (length k) ≡ k
  pub fits : pos + 4 + length k ≤ length xs
  pub after : At xs (pos + 4 + length k) s

pub At-sized :
    {xs : List ℕ} {pos : ℕ} (k s : List ℕ)
    → At xs pos (sized k ++ s)
    → length k < 2 ^ 32
    → AtSized xs pos k s
unfolding sized
At-sized {xs} {pos} k s h lt =
    let small : as_u32 (length k) ≡ length k = omega arith in
    let h' : At xs pos (to_le_bytes 4 (as_u32 (length k)) ++ (k ++ s)) = rw append_assoc at h in
    let h4 : At xs (pos + 4) (k ++ s) = At-le_next 4 _ (k ++ s) h' in
    let end : At xs (pos + 4 + length k) s = At-append k s h4 in
    record {
      len = At-le 4 _ (k ++ s) h' (omega arith) ∙ small;
      bytes = At-slice k s h4;
      fits = omega (arith, end.total);
      after = end;
    }

pub length-sized : (k : List ℕ) → length (sized k) ≡ 4 + length k
unfolding sized
length-sized k = omega (
  arith,
  length-append (to_le_bytes 4 (as_u32 (length k))) k,
  length-to_le_bytes 4 (as_u32 (length k)),
)

-- A range inside a buffer reads the same if bytes follow the buffer.
pub slice-append :
    (xs ys : List ℕ) (pos n : ℕ) → pos + n ≤ length xs → slice (xs ++ ys) pos n ≡ slice xs pos n
slice-append xs ys pos n h =
    rw (drop-append pos xs ys (omega arith))
      (take-append n (drop pos xs) ys (omega (arith, length-drop pos xs)))
