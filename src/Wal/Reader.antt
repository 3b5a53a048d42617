-- ===== src/Wal/Reader.antt =====
-- `WALReader` of src/wal/writer.rs, and the loop over its records.
pub mod Replay
use rust_kvdb.Prelude.{
  ℕ, zero, suc, List, [], ◌∷◌, ◌++◌, Option, none, some, take, drop, length, leb, if◌then◌else◌,
}
use rust_kvdb.Bytes.{Bytes}
use rust_kvdb.Bytes.Le.{from_le_bytes}
use rust_kvdb.KvError.{IoError, io, KvError, Result, ok, err, panic}
use rust_kvdb.Wal.Record.{Record, decode}

-- The file from the reader's position on, and the error that the system reports behind those
-- bytes, if it is not the end of the file that comes there.
pub record WalReader : Type 0 where
  pub rest : Bytes
  pub fault : Option IoError

-- `Read::read_exact`: too few bytes are an `UnexpectedEof`, or the system's error.
pub data ReadExact : Type 0 where
  full : Bytes → WalReader → ReadExact
  unexpected_eof : ReadExact
  failed : IoError → ReadExact

abbrev short_read : Option IoError → ReadExact
short_read none = unexpected_eof
short_read (some e) = failed e

unfoldable pub read_exact : ℕ → WalReader → ReadExact
read_exact n r =
    if leb n (length r.rest)
    then full (take n r.rest) (record r { rest = drop n r.rest })
    else short_read r.fault

-- What `next` returns, with the reader behind it; nothing is read after the end or after an error
-- of the system.
pub data Next : Type 0 where
  end : Next
  item : Result Record → WalReader → Next
  failed : IoError → Next

module _ (crc32 : Bytes → ℕ) where
  abbrev decoded : ReadExact → Next
  decoded (full buf r) = item (decode crc32 buf) r
  decoded unexpected_eof = end
  decoded (ReadExact.failed e) = Next.failed e

  abbrev read_body : ReadExact → Next
  read_body (full len_buf r) = decoded (read_exact (from_le_bytes len_buf) r)
  read_body unexpected_eof = end
  read_body (ReadExact.failed e) = Next.failed e

  unfoldable pub next : WalReader → Next
  unfolding read_exact
  next r = read_body (read_exact 4 r)

  -- `for entry in reader { let rec = entry?; s = step(s, rec) }`. Each record takes four bytes at
  -- least, so the length of the file is enough fuel.
  unfoldable pub for_each {ℓ} : {S : Type ℓ} → (S → Record → S) → ℕ → WalReader → S → Result S
  unfolding next
  for_each step zero r s = panic
  for_each step (suc fuel) r s = elim (next r) [
    | end ↦ ok s
    | Next.failed e ↦ err (io e)
    | item (ok entry) r' ↦ for_each step fuel r' (step s entry)
    | item (err e) r' ↦ err e
    | item panic r' ↦ panic
  ]

  -- The whole loop, over a reader that was just opened.
  unfoldable pub replay {ℓ} : {S : Type ℓ} → (S → Record → S) → WalReader → S → Result S
  replay step r s = for_each step (suc (length r.rest)) r s
