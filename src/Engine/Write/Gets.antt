-- ===== src/Engine/Write/Gets.antt =====
-- What `Engine::get` returns after a write.
use rust_kvdb.Prelude.{
  ℕ, ◌+◌, ◌%◌, arith, ◌<◌, ◌^◌, ◌==◌, leb, if◌then◌else◌, Bool, true, false, ◌&&◌, Option, none,
  some, List, length, ◌≡◌, refl, ap, ap₂, ◌∙◌, sym,
}
use mathlib.Core.List.{reverse}
use rust_kvdb.Bytes.{Bytes}
use rust_kvdb.Bytes.Cursor.{u8_at}
use rust_kvdb.Bytes.Order.{bytes_eq}
use rust_kvdb.Wal.Writer.{WalWriter}
use rust_kvdb.KvError.{Result, ok}
use rust_kvdb.SortedMap.{Entries, lookup}
use rust_kvdb.SortedMap.Laws.{lookup-insert}
use rust_kvdb.Memtable.MemTable.Holding.{Holding, Holding-get}
use rust_kvdb.Sstable.Reader.{Search}
use rust_kvdb.Engine.{Engine}
use rust_kvdb.Engine.Value.{tombstone, unpack_value}
use rust_kvdb.Engine.Value.Laws.{
  unpack_value-encode_with_seq, unpack_value-encode_ttl, unpack_value-tombstone,
}
use rust_kvdb.Engine.Read.{get, get_readers, search, after_memtable}
use rust_kvdb.Engine.Write.Run.{
  Op, put, put_with_ttl, delete, key_of, stored, HasRoom, run_op, run_op_lem,
}

-- A value that is told from a tombstone and from one with an expiry time, which itself fits a
-- `u64`.
abbrev pub IsPlain : ℕ → Op → Type 0
IsPlain now (put key value) =
    (bytes_eq value tombstone ≡ false) × (leb 9 (length value) && (u8_at value 0 == 0x01) ≡ false)
IsPlain now (put_with_ttl key value ttl) = now + ttl < 2 ^ 64
IsPlain now (delete key) = Unit

-- What the key of a request has at a later time.
abbrev pub expected : ℕ → Op → ℕ → Option Bytes
expected now (put key value) later = some value
expected now (put_with_ttl key value ttl) later = if leb (now + ttl) later then none else some value
expected now (delete key) later = none

pub unpack-stored :
    (now : ℕ) (op : Op) (seq later : ℕ)
    → seq < 2 ^ 64
    → IsPlain now op
    → unpack_value later (stored now op seq) ≡ expected now op later
unpack-stored now (put key value) seq later lt (live, plain) =
    unpack_value-encode_with_seq later value seq lt live plain
unpack-stored now (put_with_ttl key value ttl) seq later lt fits =
    let same : (now + ttl) % 2 ^ 64 ≡ now + ttl = omega (arith, fits) in
    rw same (unpack_value-encode_ttl later value seq (now + ttl) lt fits)
unpack-stored now (delete key) seq later lt plain = unpack_value-tombstone later seq lt

module _ (binary_search : List Bytes → Bytes → Search) where
  -- `get`, by what the memtable holds at the key.
  abbrev pub answer : ℕ → Bytes → Engine → Option Bytes → Result (Option Bytes)
  answer now key e none =
      (get_readers binary_search (λ v. some (unpack_value now v)) key (reverse e.sst_readers)
        e.block_cache).1
  answer now key e (some v) = ok (unpack_value now v)

  answer-after_memtable :
      (now : ℕ) (key : Bytes) (e : Engine) (held : Option Bytes)
      → (after_memtable binary_search (λ v. some (unpack_value now v)) key (some held) e).1
        ≡ answer now key e held
  answer-after_memtable now key e none = refl
  answer-after_memtable now key e (some v) = refl

  -- The tables answer the same if they and the cache are the same.
  pub answer_same :
      (now : ℕ) (key : Bytes) (e e' : Engine) (held : Option Bytes)
      → e'.sst_readers ≡ e.sst_readers
      → e'.block_cache ≡ e.block_cache
      → answer now key e' held ≡ answer now key e held
  answer_same now key e e' none readers cache =
      ap₂
        (λ rs c. (get_readers binary_search (λ v. some (unpack_value now v)) key (reverse rs) c).1)
        readers cache
  answer_same now key e e' (some v) readers cache = refl

  pub get-Holding :
      (now : ℕ) (key : Bytes) (e : Engine) (entries : Entries)
      → Holding e.memtable entries
      → (get binary_search now key e).1 ≡ answer now key e (lookup key entries)
  unfolding get search
  get-Holding now key e entries h =
      let counted = record e { metrics = record e.metrics { reads = e.metrics.reads + 1 } } in
      ap
        (λ held. (after_memtable binary_search (λ v. some (unpack_value now v)) key held counted).1)
        (Holding-get e.memtable entries h key)
      ∙ answer-after_memtable now key counted (lookup key entries)
      ∙ answer_same now key e counted (lookup key entries) refl refl

  answer-if :
      (b : Bool) (now : ℕ) (key : Bytes) (e : Engine) (v : Bytes) (held : Option Bytes)
      → answer now key e (if b then some v else held)
        ≡ (if b then ok (unpack_value now v) else answer now key e held)
  answer-if true now key e v held = refl
  answer-if false now key e v held = refl

  -- A `put`, `put_with_ttl` or `delete`, to a log that takes it and a valid memtable that has room
  -- for it, succeeds. Then, at any time, a lookup of its key returns the value, or nothing where it
  -- was deleted or has expired, and a lookup of any other key returns what it did before. A value
  -- must not look like a tombstone or one with an expiry time, the time of expiry, in seconds, must
  -- be below 2^64, and so must the sequence number.
  pub get-run_op :
      (crc32 : Bytes → ℕ) (ln2_rounded : ℕ → ℕ) (in_buffer : WalWriter → ℕ) (now : ℕ) (op : Op)
      (e : Engine) (entries : Entries)
      → Holding e.memtable entries
      → HasRoom now op e.next_seq e.memtable
      → e.next_seq < 2 ^ 64
      → IsPlain now op
      → (e' : Engine) × (run_op crc32 ln2_rounded in_buffer now op e ≡ (e', ok tt))
        × ((later : ℕ) (key : Bytes)
            → (get binary_search later key e').1 ≡ (
                if bytes_eq (key_of op) key
                then ok (expected now op later)
                else (get binary_search later key e).1))
  get-run_op crc32 ln2_rounded in_buffer now op e entries h room lt plain =
      let (e', returns, x) = run_op_lem crc32 ln2_rounded in_buffer now op e entries h room in
      (
        e',
        returns,
        λ later key.
            let b = bytes_eq (key_of op) key in
            get-Holding later key e' _ x.grown.holding
            ∙ ap (answer later key e')
                (lookup-insert (key_of op) key (stored now op e.next_seq) entries)
            ∙ answer-if b later key e' (stored now op e.next_seq) (lookup key entries)
            ∙ ap₂ (λ (a c : Result (Option Bytes)). if b then a else c)
                (ap ok (unpack-stored now op e.next_seq later lt plain))
                (answer_same later key e e' (lookup key entries) x.readers x.block_cache
                  ∙ sym (get-Holding later key e entries h)),
      )
