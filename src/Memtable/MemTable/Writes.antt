-- ===== src/Memtable/MemTable/Writes.antt =====
-- The writes of a memtable against what it holds at each key.
use rust_kvdb.Prelude.{
  ℕ, ◌+◌, ◌≤◌, ltb, leb, if◌then◌else◌, Bool, true, false, Option, none, some, List, [], ◌≡◌, refl,
  sym, ◌∙◌, ap, arith, Bool-cases, Option-cases, inl, inr,
}
use rust_kvdb.Bytes.{Bytes}
use rust_kvdb.Bytes.Order.{bytes_eq}
use rust_kvdb.SortedMap
use rust_kvdb.SortedMap.{Entries, lookup}
use rust_kvdb.SortedMap.Laws.{lookup-insert}
use rust_kvdb.Memtable.Node.{◌>>=◌, size_of_skip_list}
use rust_kvdb.Memtable.SkipList
use rust_kvdb.Memtable.SkipList.{SkipList, xorshift}
use rust_kvdb.Memtable.SkipList.Cells.{Cell}
use rust_kvdb.Memtable.SkipList.Valid
use rust_kvdb.Memtable.SkipList.Valid.{contents}
use rust_kvdb.Memtable.SkipList.New.{new-IsValid}
use rust_kvdb.Memtable.SkipList.Insert.{insert_lem, entry_cost}
use rust_kvdb.Memtable.MemTable.{MemTable, with_max_size, freeze, put_no_freeze, put}
use rust_kvdb.Memtable.MemTable.Reads.{IsFrozen, or_else}

-- Both lists are valid, and hold these cells.
pub record IsValid (m : MemTable) (recent old : List Cell) : Type 0 where
  pub active : Valid.IsValid m.active recent
  pub frozen : IsFrozen m.immutable old

-- What the two lists hold at a key, the active one first.
abbrev pub view : List Cell → List Cell → Bytes → Option Bytes
view recent old key = or_else (lookup key (contents recent)) (lookup key (contents old))

pub or_else-none : (a : Option Bytes) → or_else a none ≡ a
or_else-none none = refl
or_else-none (some a) = refl

pub with_max_size-IsValid :
    (max_size : ℕ)
    → (m : MemTable) × (with_max_size max_size ≡ some m)
      × IsValid m [] []
      × (m.immutable ≡ none)
      × (m.max_size ≡ max_size)
      × (m.active.max_level ≡ 16)
      × (m.active.size ≡ size_of_skip_list)
unfolding with_max_size
with_max_size-IsValid max_size =
    let (s, e, v, l, z) = new-IsValid 16 (omega arith) in
    (
      record { active = s; immutable = none; max_size = max_size },
      rw e refl,
      record { active = v; frozen = refl },
      refl,
      refl,
      l,
      z,
    )

-- What a freeze leaves: both lists valid, and the same at each key.
pub record Frozen (m : MemTable) (recent old : List Cell) (m' : MemTable) : Type 0 where
  pub recent' : List Cell
  pub old' : List Cell
  pub valid : IsValid m' recent' old'
  pub same : (key : Bytes) → view recent' old' key ≡ view recent old key

Frozen-refl : (m : MemTable) (recent old : List Cell) → IsValid m recent old → Frozen m recent old m
Frozen-refl m recent old v = record { recent' = recent; old' = old; valid = v; same = λ key. refl }

-- `freeze`, by what is frozen already.
abbrev freeze_at : MemTable → Option SkipList → Option (MemTable × Bool)
freeze_at m (some frozen) = some (m, false)
freeze_at m none = do
  fresh ← SkipList.new 16
  if leb m.active.size size_of_skip_list
      then some (m, false)
      else some (record m { active = fresh; immutable = some m.active }, true)

freeze-at : (m : MemTable) → freeze m ≡ freeze_at m m.immutable
unfolding freeze
freeze-at m = elim m.immutable [ some frozen ↦ refl | none ↦ refl ]

pub freeze_lem :
    (m : MemTable) (recent old : List Cell)
    → IsValid m recent old
    → (m' : MemTable) × (b : Bool) × (freeze m ≡ some (m', b)) × Frozen m recent old m'
unfolding freeze
freeze_lem m recent old v = elim (Option-cases m.immutable) [
  | inr (imm, e) ↦ (m, false, freeze-at m ∙ ap (freeze_at m) e, Frozen-refl m recent old v)
  | inl e ↦
      let (s, made, vs, l, z) = new-IsValid 16 (omega arith) in
      let empty : old ≡ [] = rw e at v.frozen in
      elim (Bool-cases (leb m.active.size size_of_skip_list)) [
        | inl small ↦ (
          m,
          false,
          freeze-at m ∙ ap (freeze_at m) e ∙ rw made rw small refl,
          Frozen-refl m recent old v,
        )
        | inr big ↦ (
          record m { active = s; immutable = some m.active },
          true,
          freeze-at m ∙ ap (freeze_at m) e ∙ rw made rw big refl,
          record {
            recent' = [];
            old' = recent;
            valid = record { active = vs; frozen = v.active };
            same = λ key.
                unfold lookup in rw empty (sym (or_else-none (lookup key (contents recent))));
          },
        )
      ]
]

-- What a write leaves: both lists valid, and the value at its key, the others as they were.
pub record Written (key value : Bytes) (recent old : List Cell) (m' : MemTable) : Type 0 where
  pub recent' : List Cell
  pub old' : List Cell
  pub valid : IsValid m' recent' old'
  pub updated :
      (j : Bytes) → view recent' old' j ≡ (if bytes_eq key j then some value else view recent old j)

or_else-if :
    (b : Bool) (value : Bytes) (a c : Option Bytes)
    → or_else (if b then some value else a) c ≡ (if b then some value else or_else a c)
or_else-if true value a c = refl
or_else-if false value a c = refl

pub put_no_freeze_lem :
    (v : ℕ) (key value : Bytes) (m : MemTable) (recent old : List Cell)
    → IsValid m recent old
    → (m' : MemTable) × (put_no_freeze v key value m ≡ some (xorshift v, m'))
      × (w : Written key value recent old m') × (m'.immutable ≡ m.immutable)
      × (w.old' ≡ old)
      × (contents w.recent' ≡ SortedMap.insert key value (contents recent))
      × (m'.max_size ≡ m.max_size)
      × (m'.active.max_level ≡ m.active.max_level)
      × (m'.active.size ≤ m.active.size + entry_cost m.active.max_level key value)
unfolding put_no_freeze
put_no_freeze_lem v key value m recent old valid =
    let (s, e, x) = insert_lem v key value m.active recent valid.active in
    (
      record m { active = s },
      rw e refl,
      record {
        recent' = x.cells';
        old' = old;
        valid = record { active = x.valid; frozen = valid.frozen };
        updated = λ j.
            ap (λ c. or_else (lookup j c) (lookup j (contents old))) x.content
            ∙ ap (λ a. or_else a (lookup j (contents old)))
                (lookup-insert key j value (contents recent))
            ∙ or_else-if (bytes_eq key j) value (lookup j (contents recent))
                (lookup j (contents old));
      },
      refl,
      refl,
      x.content,
      refl,
      x.levels,
      x.grown,
    )

-- A write to a valid memtable follows no bad pointer. Whether or not it freezes the active list,
-- the memtable stays valid, and holds the value at its key and at every other key what it held.
pub put-Written :
    (v : ℕ) (key value : Bytes) (m : MemTable) (recent old : List Cell)
    → IsValid m recent old
    → (m' : MemTable) × (put v key value m ≡ some (xorshift v, m'))
      × Written key value recent old m'
unfolding put
put-Written v key value m recent old valid =
    let (m1, e, w, _, _, _, _, _, _) = put_no_freeze_lem v key value m recent old valid in
    let (m2, b, f, x) = freeze_lem m1 w.recent' w.old' w.valid in
    elim (Bool-cases (ltb m1.max_size m1.active.size)) [
      | inl full ↦ (
        m2,
        rw (e, f, full) refl,
        record {
          recent' = x.recent';
          old' = x.old';
          valid = x.valid;
          updated = λ j. x.same j ∙ w.updated j;
        },
      )
      | inr room ↦ (m1, rw (e, f, room) refl, w)
    ]
