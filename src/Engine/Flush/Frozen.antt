-- ===== src/Engine/Flush/Frozen.antt =====
-- What `maybe_flush` of src/engine.rs does with a frozen memtable.
use rust_kvdb.Prelude.{
  ℕ, zero, suc, ◌+◌, ◌-◌, ◌*◌, ◌^◌, ◌<◌, ltb, true, none, some, Option, List, [], ◌∷◌, length, All,
  ◌≡◌, refl, Ordering, ◌⊎◌, inl, inr, ◌++◌, ◌≤◌, take, take-append-drop, length-drop, arith, ap,
  ◌∙◌,
}
use rust_kvdb.Bytes.{Bytes}
use rust_kvdb.Bytes.Order.{compare_bytes}
use rust_kvdb.KvError.{Result, ok}
use rust_kvdb.SortedMap
use rust_kvdb.SortedMap.{Entries}
use rust_kvdb.Wal.Writer.{WalWriter}
use rust_kvdb.Manifest
use rust_kvdb.Manifest.{Manifest, SstMeta, ssts_at_level, add_sst}
use rust_kvdb.Memtable.SkipList.{SkipList}
use rust_kvdb.Memtable.SkipList.Cells
use rust_kvdb.Memtable.SkipList.Cells.{Cell}
use rust_kvdb.Memtable.SkipList.Valid
use rust_kvdb.Memtable.SkipList.Valid.{contents}
use rust_kvdb.Memtable.SkipList.Scan.{iter-contents}
use rust_kvdb.Memtable.MemTable.{take_immutable}
use rust_kvdb.Memtable.MemTable.Writes.{IsValid}
use rust_kvdb.Memtable.MemTable.Reads.{IsFrozen}
use rust_kvdb.Memtable.MemTable.Holding.{Holding}
use rust_kvdb.Cache.{CacheKey}
use rust_kvdb.Sstable.Block.{Block}
use rust_kvdb.Sstable.Block.RoundTrip.{IsEntry}
use rust_kvdb.Engine.{Engine, Options}
use rust_kvdb.Engine.Flush.{maybe_flush, maybe_compact, compact_levels, reset_wal}
use rust_kvdb.Engine.Flush.Tables.{table_file, size_of}
use rust_kvdb.Engine.Flush.Write.{IsOnDisk, write_table_lem}
use rust_kvdb.Engine.Read.Newest.{HasTables}

All-contents :
    (k : Bytes) (cells : List Cell)
    → All (λ d. compare_bytes k d.key ≡ Ordering.lt) cells
    → All (λ (e : Bytes × Bytes). compare_bytes k e.0 ≡ Ordering.lt) (contents cells)
All-contents k [] a = tt
All-contents k (c ∷ cells) (p, a) = (p, All-contents k cells a)

contents-IsSorted : (cells : List Cell) → Cells.IsSorted cells → SortedMap.IsSorted (contents cells)
contents-IsSorted [] s = tt
contents-IsSorted (c ∷ cells) (a, s) = (All-contents c.key cells a, contents-IsSorted cells s)

-- So many levels, from one on, have fewer tables than make it due to compact them.
abbrev pub NotDue : Options → Manifest → ℕ → ℕ → Type 0
NotDue opts m zero level = Unit
NotDue opts m (suc n) level =
    (ltb (length (ssts_at_level m level)) (opts.l0_compaction_threshold * 10 ^ level) ≡ true)
    × NotDue opts m n (suc level)

compact_levels_lem :
    (ln2_rounded : ℕ → ℕ) (now n level : ℕ) (e : Engine)
    → NotDue e.opts e.manifest n level
    → compact_levels ln2_rounded now n level e ≡ (e, ok tt)
unfolding compact_levels
compact_levels_lem ln2_rounded now zero level e d = refl
compact_levels_lem ln2_rounded now (suc n) level e (below, d) =
    rw (compact_levels, below) (compact_levels_lem ln2_rounded now n (suc level) e d)

frozen_list :
    (frozen : Option SkipList) (cells : List Cell)
    → IsFrozen frozen cells
    → (cells ≡ []) ⊎ ((imm : SkipList) × (frozen ≡ some imm) × Valid.IsValid imm cells)
frozen_list none cells f = inl f
frozen_list (some imm) cells f = inr (imm, refl, f)

-- A log that was emptied, but for the end of the bytes that were pending, which was in the buffer.
pub record Emptied (in_buffer : WalWriter → ℕ) (old new : WalWriter) : Type 0 where
  pub synced : new.synced ≡ []
  pub gone : Bytes
  pub kept : gone ++ new.pending ≡ old.pending
  pub few : length new.pending ≤ in_buffer old

reset_wal-Emptied :
    (in_buffer : WalWriter → ℕ) (old : WalWriter) (e : Engine)
    → e.wal ≡ old
    → Emptied in_buffer old (reset_wal in_buffer e).0.wal
unfolding reset_wal
reset_wal-Emptied in_buffer old e same =
    let p = e.wal.pending in
    let n = length p - in_buffer e.wal in
    record {
      synced = refl;
      gone = take n p;
      kept = take-append-drop n p ∙ ap (λ w. w.pending) same;
      few = omega (arith, length-drop n p, ap in_buffer same);
    }

module _ (disk : CacheKey → Result Block) where
  pub maybe_flush-HasTables :
      (ln2_rounded : ℕ → ℕ) (in_buffer : WalWriter → ℕ) (now : ℕ) (e : Engine) (recent : List Cell)
      (c : Cell) (old : List Cell) (tables : List Entries)
      → IsValid e.memtable recent (c ∷ old)
      → All IsEntry (contents (c ∷ old))
      → length (contents (c ∷ old)) * 10 < 2 ^ 32
      → size_of (table_file ln2_rounded e.opts.block_size (contents (c ∷ old))) < 2 ^ 32
      → IsOnDisk disk (table_file ln2_rounded e.opts.block_size (contents (c ∷ old))) e.next_sst_id
      → ((meta : SstMeta) → NotDue e.opts (add_sst 0 meta e.manifest) (e.opts.max_levels - 1) 0)
      → HasTables disk e tables
      → (e' : Engine) × (maybe_flush ln2_rounded in_buffer now e ≡ (e', ok tt))
        × Holding e'.memtable (contents recent)
        × HasTables disk e' (contents (c ∷ old) ∷ tables)
        × Emptied in_buffer e.wal e'.wal
        × (e'.files.manifest_file ≡ some (Manifest.encode e'.manifest))
  unfolding maybe_flush maybe_compact take_immutable reset_wal
  maybe_flush-HasTables ln2_rounded in_buffer now e recent c old tables valid fits few small on_disk
        room h =
      elim (frozen_list e.memtable.immutable (c ∷ old) valid.frozen) [
        | inl none_ ↦ absurd (cc none_)
        | inr (imm, frozen, v) ↦
            let taken = record e { memtable = (take_immutable e.memtable).0 } in
            let h' : HasTables disk taken tables = record {
              readers = h.readers;
              cache = h.cache;
            } in
            let (e1, writes, w) =
              write_table_lem disk ln2_rounded 0 (c.key, c.value) (contents old) tables taken
                (contents-IsSorted (c ∷ old) v.sorted) fits few small on_disk h' in
            let e2 = record e1 {
              files = record e1.files { manifest_file = some (Manifest.encode e1.manifest) };
              wal = (reset_wal in_buffer e1).0.wal;
              metrics = record e1.metrics { flushes = e1.metrics.flushes + 1 };
            } in
            let none_due : NotDue e2.opts e2.manifest (e2.opts.max_levels - 1) 0 =
              rw (w.opts, w.manifest) (room w.meta) in
            (
              e2,
              rw (maybe_flush, frozen, iter-contents imm (c ∷ old) v, writes)
                  (compact_levels_lem ln2_rounded now (e2.opts.max_levels - 1) 0 e2 none_due),
              rw w.memtable (record {
                cells = recent;
                valid = record { active = valid.active; frozen = refl };
                unfrozen = refl;
                holds = refl;
              }),
              record { readers = w.holds.readers; cache = w.holds.cache },
              reset_wal-Emptied in_buffer e.wal e1 w.wal,
              refl,
            )
      ]
