-- ===== src/Memtable/MemTable/Holding.antt =====
-- A memtable with nothing frozen, as long as its writes leave room in it.
use rust_kvdb.Prelude.{ℕ, ◌+◌, ◌≤◌, List, [], some, none, ltb, false, ◌≡◌, refl, ap, ◌∙◌, arith}
use rust_kvdb.Bytes.{Bytes}
use rust_kvdb.SortedMap
use rust_kvdb.SortedMap.{Entries, lookup}
use rust_kvdb.Memtable.SkipList.{xorshift}
use rust_kvdb.Memtable.SkipList.Cells.{Cell}
use rust_kvdb.Memtable.SkipList.Valid.{contents}
use rust_kvdb.Memtable.SkipList.Insert.{entry_cost}
use rust_kvdb.Memtable.MemTable.{MemTable, get, put, put_no_freeze}
use rust_kvdb.Memtable.MemTable.Reads.{reads_lem}
use rust_kvdb.Memtable.MemTable.Writes.{IsValid, or_else-none, put_no_freeze_lem, freeze_lem}

-- A valid memtable without a frozen list that holds these entries.
pub record Holding (m : MemTable) (entries : Entries) : Type 0 where
  pub cells : List Cell
  pub valid : IsValid m cells []
  pub unfrozen : m.immutable ≡ none
  pub holds : contents cells ≡ entries

pub Holding-get :
    (m : MemTable) (entries : Entries)
    → Holding m entries
    → (key : Bytes) → get key m ≡ some (lookup key entries)
unfolding lookup
Holding-get m entries h key =
    (reads_lem m h.cells [] key [] [] h.valid.active h.valid.frozen).0
    ∙ ap some (or_else-none (lookup key (contents h.cells)))
    ∙ ap (λ c. some (lookup key c)) h.holds

-- A memtable that a write has put the entry into, and that has not grown by more than its cost.
pub record Grown (key value : Bytes) (m : MemTable) (entries : Entries) (m' : MemTable)
    : Type 0 where
  pub holding : Holding m' (SortedMap.insert key value entries)
  pub max_size : m'.max_size ≡ m.max_size
  pub levels : m'.active.max_level ≡ m.active.max_level
  pub size : m'.active.size ≤ m.active.size + entry_cost m.active.max_level key value

pub put_no_freeze-Holding :
    (v : ℕ) (key value : Bytes) (m : MemTable) (entries : Entries)
    → Holding m entries
    → (m' : MemTable) × (put_no_freeze v key value m ≡ some (xorshift v, m'))
      × Grown key value m entries m'
put_no_freeze-Holding v key value m entries h =
    let (m', e, w, unfrozen, old, content, max_size, levels, size) =
      put_no_freeze_lem v key value m h.cells [] h.valid in
    (
      m',
      e,
      record {
        holding = record {
          cells = w.recent';
          valid = rw old at w.valid;
          unfrozen = unfrozen ∙ h.unfrozen;
          holds = content ∙ ap (SortedMap.insert key value) h.holds;
        };
        max_size = max_size;
        levels = levels;
        size = size;
      },
    )

-- A write that leaves the list within its bound freezes nothing.
pub put-Holding :
    (v : ℕ) (key value : Bytes) (m : MemTable) (entries : Entries)
    → Holding m entries
    → m.active.size + entry_cost m.active.max_level key value ≤ m.max_size
    → (m' : MemTable) × (put v key value m ≡ some (xorshift v, m')) × Grown key value m entries m'
unfolding put
put-Holding v key value m entries h room =
    let (m', e, g) = put_no_freeze-Holding v key value m entries h in
    let (m2, b, f, _) = freeze_lem m' g.holding.cells [] g.holding.valid in
    let below : ltb m'.max_size m'.active.size ≡ false = ground (arith, g.size, g.max_size) in
    (m', rw (e, f, below) refl, g)
