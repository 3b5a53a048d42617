-- ===== src/Engine/Open/Recovery.antt =====
-- What `replay_wal` of src/engine.rs makes of a log, after a crash too.
use rust_kvdb.Prelude.{
  ℕ, zero, suc, ◌<◌, List, [], ◌∷◌, ◌++◌, none, some, length, ◌≡◌, refl, arith, ap, ◌∙◌,
  append_assoc, length-append, All,
}
use mathlib.Core.List.{foldl}
use rust_kvdb.Bytes.{Bytes}
use rust_kvdb.KvError.{ok}
use rust_kvdb.SortedMap
use rust_kvdb.SortedMap.{Entries, lookup}
use rust_kvdb.Wal.Record.{Record, encode}
use rust_kvdb.Wal.Reader.{end, next}
use rust_kvdb.Wal.Reader.Replay.{reader, encode_all, encode_all_long, IsReadable, next-encode}
use rust_kvdb.Wal.Crash.{log_of, crash_file}
use rust_kvdb.Memtable.SkipList.{xorshift}
use rust_kvdb.Memtable.MemTable
use rust_kvdb.Memtable.MemTable.{MemTable}
use rust_kvdb.Memtable.MemTable.Writes.{with_max_size-IsValid}
use rust_kvdb.Memtable.MemTable.Holding.{Holding, Holding-get, put_no_freeze-Holding}
use rust_kvdb.Engine.Open.{replayed_value, replay_record, replay_loop, replay_wal}

-- The map that the records of a log make of this one.
abbrev pub replay_map : Entries → List Record → Entries
replay_map m rs = foldl (λ m r. SortedMap.insert r.key (replayed_value r) m) m rs

replay_record_lem :
    (v : ℕ) (m : MemTable) (entries : Entries) (r : Record)
    → Holding m entries
    → (m' : MemTable) × (replay_record (v, m) r ≡ ok (xorshift v, m'))
      × Holding m' (SortedMap.insert r.key (replayed_value r) entries)
unfolding replay_record
replay_record_lem v m entries r h =
    let (m', e, g) = put_no_freeze-Holding v r.key (replayed_value r) m entries h in
    (m', rw e refl, g.holding)

module _ (crc32 : Bytes → ℕ) where
  replay_loop_lem :
      (rs : List Record) (torn : Bytes) (fuel v : ℕ) (m : MemTable) (entries : Entries)
      → All (IsReadable crc32) rs
      → next crc32 (reader torn none) ≡ end
      → length rs < fuel
      → Holding m entries
      → (p : ℕ × MemTable) × (replay_loop crc32 fuel
            (reader (encode_all crc32 rs ++ torn) none)
            (v, m)
          ≡ ok p)
        × Holding p.1 (replay_map entries rs)
  unfolding replay_loop
  replay_loop_lem rs torn zero v m entries good stop h holding = absurd (omega arith)
  replay_loop_lem [] torn (suc fuel) v m entries good stop h holding =
      ((v, m), rw (stop, replay_loop) refl, holding)
  replay_loop_lem (r ∷ rs) torn (suc fuel) v m entries (g, good) stop h holding =
      let (m', step, holding') = replay_record_lem v m entries r holding in
      let (p, e, held) =
        replay_loop_lem rs torn fuel (xorshift v) m' _ good stop (omega arith) holding' in
      (
        p,
        rw
            (
              append_assoc (encode crc32 r) (encode_all crc32 rs) torn,
              next-encode crc32 r g (encode_all crc32 rs ++ torn) none,
              replay_loop,
              step,
            )
            e,
        held,
      )

  -- `replay_wal` of a log of whole records, with a tail behind them at which the reader stops.
  pub replay_wal_lem :
      (rs : List Record) (torn : Bytes) (v memtable_size : ℕ)
      → All (IsReadable crc32) rs
      → next crc32 (reader torn none) ≡ end
      → (p : ℕ × MemTable) × (replay_wal crc32 v (some (encode_all crc32 rs ++ torn)) memtable_size
          ≡ ok p)
        × Holding p.1 (replay_map [] rs)
  unfolding replay_wal
  replay_wal_lem rs torn v memtable_size good stop =
      let (m, made, valid, unfrozen, _, _, _) = with_max_size-IsValid memtable_size in
      let empty : Holding m [] = record {
        cells = [];
        valid = valid;
        unfrozen = unfrozen;
        holds = refl;
      } in
      let (p, e, held) =
        replay_loop_lem rs torn (suc (length (encode_all crc32 rs ++ torn))) v m [] good stop
          (omega (arith, encode_all_long crc32 rs, length-append (encode_all crc32 rs) torn))
          empty in
      (p, rw made e, held)

  -- A log is written and flushed, more records are written to it, and a crash keeps the first part
  -- of those bytes, of any length. Each record, with 13 bytes for its fields, is shorter than 2^32
  -- bytes, and its checksum is a `u32`. Opening the log then succeeds, with a valid memtable and
  -- nothing frozen. A lookup in it returns what the flushed records and a prefix of the later ones
  -- make of an empty map, where each one inserts its value, or the tombstone for a deletion, at its
  -- key.
  pub replay_wal-crash :
      (flushed later : List Record) (kept lost : Bytes) (v memtable_size : ℕ)
      → All (IsReadable crc32) flushed
      → All (IsReadable crc32) later
      → kept ++ lost ≡ (log_of crc32 flushed later).pending
      → (saved : List Record) × (dropped : List Record) × (saved ++ dropped ≡ later)
        × (p : ℕ × MemTable) × (replay_wal crc32 v
              (some ((log_of crc32 flushed later).synced ++ kept))
              memtable_size
            ≡ ok p)
        × Holding p.1 (replay_map [] (flushed ++ saved))
        × ((key : Bytes)
            → MemTable.get key p.1 ≡ some (lookup key (replay_map [] (flushed ++ saved))))
  replay_wal-crash flushed later kept lost v memtable_size good fine e =
      let (saved, dropped, torn, parts, file, stop, whole) =
        crash_file crc32 flushed later kept lost good fine e in
      let (p, done, held) = replay_wal_lem (flushed ++ saved) torn v memtable_size whole stop in
      (
        saved,
        dropped,
        parts,
        p,
        ap (λ (t : Bytes). replay_wal crc32 v (some t) memtable_size) file ∙ done,
        held,
        Holding-get p.1 _ held,
      )
