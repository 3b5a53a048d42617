-- ===== src/Memtable/MemTable.antt =====
-- src/memtable/memtable.rs: the skip list that takes the writes, and a frozen one.
pub mod Reads
pub mod Writes
pub mod Holding
use rust_kvdb.Prelude.{ℕ, ◌*◌, ltb, leb, if◌then◌else◌, Bool, true, false, Option, none, some, []}
use mathlib.Core.List.{foldl}
use rust_kvdb.Bytes.{Bytes}
use rust_kvdb.SortedMap
use rust_kvdb.SortedMap.{Entries}
use rust_kvdb.Memtable.Node.{◌>>=◌, size_of_skip_list}
use rust_kvdb.Memtable.SkipList
use rust_kvdb.Memtable.SkipList.{SkipList}

pub record MemTable : Type 0 where
  pub active : SkipList
  pub immutable : Option SkipList
  pub max_size : ℕ

-- `DEFAULT_MAX_SIZE`
abbrev pub default_max_size : ℕ
default_max_size = 4 * 1024 * 1024

unfoldable pub with_max_size : ℕ → Option MemTable
with_max_size max_size = do
  active ← SkipList.new 16
  some (record { active = active; immutable = none; max_size = max_size })

-- The answer tells whether a freeze happened.
unfoldable pub freeze : MemTable → Option (MemTable × Bool)
freeze m = elim m.immutable [
  | some frozen ↦ some (m, false)
  | none ↦ do
    fresh ← SkipList.new 16
    if leb m.active.size size_of_skip_list
        then some (m, false)
        else some (record m { active = fresh; immutable = some m.active }, true)
]

-- With the state of the thread's generator before and after, as for `insert`.
unfoldable pub put_no_freeze : ℕ → Bytes → Bytes → MemTable → Option (ℕ × MemTable)
unfolding SkipList.insert
put_no_freeze v key value m = do
  (v', active) ← SkipList.insert v key value m.active
  some (v', record m { active = active })

unfoldable pub put : ℕ → Bytes → Bytes → MemTable → Option (ℕ × MemTable)
unfolding put_no_freeze freeze
put v key value m = do
  (v', m') ← put_no_freeze v key value m
  (m'', _) ← freeze m'
  some (v', if ltb m'.max_size m'.active.size then m'' else m')

-- `None` where there is no immutable list
abbrev pub get_immutable : Bytes → Option SkipList → Option (Option Bytes)
get_immutable key none = some none
get_immutable key (some imm) = SkipList.get key imm

unfoldable pub get : Bytes → MemTable → Option (Option Bytes)
unfolding SkipList.get
get key m = do
  found ← SkipList.get key m.active
  elim found [ some v ↦ some (some v) | none ↦ get_immutable key m.immutable ]

-- `for (k, v) in entries { map.insert(k, v); }`
abbrev pub insert_all : Entries → Entries → Entries
insert_all map entries = foldl (λ m e. SortedMap.insert e.0 e.1 m) map entries

abbrev pub scan_immutable : Bytes → Bytes → Option SkipList → Option Entries
scan_immutable start end none = some []
scan_immutable start end (some imm) = SkipList.scan start end imm

unfoldable pub scan : Bytes → Bytes → MemTable → Option Entries
unfolding SkipList.scan SortedMap.insert
scan start end m = do
  old ← scan_immutable start end m.immutable
  recent ← SkipList.scan start end m.active
  some (insert_all (insert_all [] old) recent)

unfoldable pub has_immutable : MemTable → Bool
has_immutable m = elim m.immutable [ none ↦ false | some imm ↦ true ]

unfoldable pub take_immutable : MemTable → MemTable × Option SkipList
take_immutable m = (record m { immutable = none }, m.immutable)
