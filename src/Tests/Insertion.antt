-- ===== src/Tests/Insertion.antt =====
-- A run of the insertion into a skip list.
use rust_kvdb.Prelude.{◌+◌, [], ◌∷◌, ◌++◌, take, some, ◌≡◌, refl, arith}
use rust_kvdb.Bytes.Order.{compare_bytes}
use rust_kvdb.Memtable.Node.{Heap, store, new_node}
use rust_kvdb.Memtable.SkipList.{splice}
use rust_kvdb.Memtable.SkipList.Cells.{Linked, lanes}
use rust_kvdb.Memtable.SkipList.Walk.{updates}
use rust_kvdb.Memtable.SkipList.Valid.{Split, sentinel}
use rust_kvdb.Memtable.SkipList.Link.{splice_lem}
use rust_kvdb.Tests.Memory.{cell, skip_list, skip_list-IsValid}

split : Split (b'z' ∷ []) (cell ∷ [])
unfolding compare_bytes
split = record { below = cell ∷ []; above = []; parts = refl; less = (refl, tt); rest = tt }

splice_lem_example :
    (h' : Heap) × (splice 2 0
        (take (1 + 1) (updates 2 0 split.below))
        (store skip_list.heap 2 (some (new_node (b'z' ∷ []) (8 ∷ []) 1)))
      ≡ some h')
    × Linked lanes h' (
        sentinel skip_list
        ∷ (split.below
            ++ (record { addr = 2; key = b'z' ∷ []; value = 8 ∷ []; height = 1 } ∷ split.above)))
splice_lem_example =
    splice_lem skip_list (cell ∷ []) (b'z' ∷ []) (8 ∷ []) 1 split skip_list-IsValid (omega arith)
