-- ===== src/Memtable/MemTable/Reads.antt =====
-- The reads of a memtable against the maps of its two lists.
use rust_kvdb.Prelude.{Option, none, some, List, [], ◌≡◌, refl, Option-cases, inl, inr}
use rust_kvdb.Bytes.{Bytes}
use rust_kvdb.SortedMap.{lookup, range}
use rust_kvdb.Memtable.SkipList.{SkipList}
use rust_kvdb.Memtable.SkipList.Cells.{Cell}
use rust_kvdb.Memtable.SkipList.Valid.{IsValid, contents}
use rust_kvdb.Memtable.SkipList.Get.{get-lookup}
use rust_kvdb.Memtable.SkipList.Scan.{scan-range}
use rust_kvdb.Memtable.MemTable.{MemTable, get, scan, insert_all, get_immutable, scan_immutable}

-- The frozen list, if there is one, is valid and holds the cells; else there are none.
abbrev pub IsFrozen : Option SkipList → List Cell → Type 0
IsFrozen none old = old ≡ []
IsFrozen (some imm) old = IsValid imm old

-- The first answer, or else the second.
abbrev pub or_else : Option Bytes → Option Bytes → Option Bytes
or_else none b = b
or_else (some a) b = some a

get_immutable_lem :
    (key : Bytes) (frozen : Option SkipList) (old : List Cell)
    → IsFrozen frozen old
    → get_immutable key frozen ≡ some (lookup key (contents old))
unfolding lookup
get_immutable_lem key none old f = rw f refl
get_immutable_lem key (some imm) old f = get-lookup imm old key f

scan_immutable_lem :
    (start end : Bytes) (frozen : Option SkipList) (old : List Cell)
    → IsFrozen frozen old
    → scan_immutable start end frozen ≡ some (range start end (contents old))
unfolding range
scan_immutable_lem start end none old f = rw f refl
scan_immutable_lem start end (some imm) old f = scan-range imm old start end f

-- A lookup in a memtable whose lists are valid follows no bad pointer: it returns what the active
-- list has at the key, or else what the frozen one has. A scan of it inserts the entries of the
-- range from the frozen list into an empty map, and then those from the active one over them.
pub reads_lem :
    (m : MemTable) (recent old : List Cell) (key start end : Bytes)
    → IsValid m.active recent
    → IsFrozen m.immutable old
    → (get key m ≡ some (or_else (lookup key (contents recent)) (lookup key (contents old))))
      × (scan start end m
          ≡ some (
              insert_all
                (insert_all [] (range start end (contents old)))
                (range start end (contents recent))))
unfolding get scan
reads_lem m recent old key start end v f = (
  elim (Option-cases (lookup key (contents recent))) [
    | inl miss ↦
        rw (get, get-lookup m.active recent key v, miss) (get_immutable_lem key m.immutable old f)
    | inr (a, hit) ↦ rw (get, get-lookup m.active recent key v, hit) refl
  ],
  rw (scan, scan_immutable_lem start end m.immutable old f, scan-range m.active recent start end v)
      refl,
)
