-- ===== src/Engine/Write/Snapshots.antt =====
-- What `Engine::get_at` returns after a write that came behind the snapshot.
use rust_kvdb.Prelude.{
  ℕ, ◌<◌, ◌^◌, ltb, if◌then◌else◌, Bool, true, false, Option, none, some, List, ◌≡◌, refl, ap, ap₂,
  ◌∙◌, sym, arith, Option-cases, inl, inr,
}
use mathlib.Core.List.{reverse}
use rust_kvdb.Bytes.{Bytes}
use rust_kvdb.Bytes.Order.{bytes_eq}
use rust_kvdb.Wal.Writer.{WalWriter}
use rust_kvdb.KvError.{Result, ok}
use rust_kvdb.SortedMap.{Entries, lookup}
use rust_kvdb.SortedMap.Laws.{lookup-insert}
use rust_kvdb.Memtable.MemTable.Holding.{Holding, Holding-get}
use rust_kvdb.Sstable.Reader.{Search}
use rust_kvdb.Engine.{Engine, Snapshot}
use rust_kvdb.Engine.Value.Laws.{decode-encode_with_seq}
use rust_kvdb.Engine.Read.{get_at, get_readers, search, after_memtable, visible, snapshot}
use rust_kvdb.Engine.Write.Run.{Op, key_of, inner_of, stored, HasRoom, run_op, run_op_lem}

visible-stored :
    (later now seq : ℕ) (op : Op) (snap : Snapshot)
    → seq < 2 ^ 64
    → snap.seq ≡ seq
    → visible later snap (stored now op seq) ≡ none
unfolding visible
visible-stored later now seq op snap lt same =
    let not_before : ltb seq snap.seq ≡ false = ground (arith, same) in
    rw (visible, decode-encode_with_seq (inner_of now op) seq lt, not_before) refl

module _ (binary_search : List Bytes → Bytes → Search) (later : ℕ) (snap : Snapshot) where
  -- What the tables hold that was written before the snapshot.
  abbrev pub tables_at : Bytes → Engine → Result (Option Bytes)
  tables_at key e =
      (get_readers binary_search (visible later snap) key (reverse e.sst_readers) e.block_cache).1

  -- `get_at`, by what the memtable holds at the key.
  abbrev answer_at : Bytes → Engine → Option Bytes → Result (Option Bytes)
  answer_at key e none = tables_at key e
  answer_at key e (some v) = elim (visible later snap v) [ none ↦ tables_at key e | some r ↦ ok r ]

  answer_at-after_memtable :
      (key : Bytes) (e : Engine) (held : Option Bytes)
      → (after_memtable binary_search (visible later snap) key (some held) e).1
        ≡ answer_at key e held
  answer_at-after_memtable key e none = refl
  answer_at-after_memtable key e (some v) = elim (Option-cases (visible later snap v)) [
    | inl hidden ↦ rw (after_memtable, answer_at, hidden) refl
    | inr (r, shown) ↦ rw (after_memtable, answer_at, shown) refl
  ]

  get_at-Holding :
      (key : Bytes) (e : Engine) (entries : Entries)
      → Holding e.memtable entries
      → (get_at binary_search later key snap e).1 ≡ answer_at key e (lookup key entries)
  unfolding get_at search
  get_at-Holding key e entries h =
      ap (λ held. (after_memtable binary_search (visible later snap) key held e).1)
        (Holding-get e.memtable entries h key)
      ∙ answer_at-after_memtable key e (lookup key entries)

  answer_at-same :
      (key : Bytes) (e e' : Engine) (held : Option Bytes)
      → tables_at key e' ≡ tables_at key e
      → answer_at key e' held ≡ answer_at key e held
  answer_at-same key e e' none same = same
  answer_at-same key e e' (some v) same = elim (Option-cases (visible later snap v)) [
    | inl hidden ↦ rw (answer_at, hidden) same
    | inr (r, shown) ↦ rw (answer_at, shown) refl
  ]

  answer_at-if :
      (b : Bool) (key : Bytes) (e : Engine) (v : Bytes) (held : Option Bytes)
      → visible later snap v ≡ none
      → answer_at key e (if b then some v else held)
        ≡ (if b then tables_at key e else answer_at key e held)
  answer_at-if true key e v held hidden = rw (answer_at, hidden) refl
  answer_at-if false key e v held hidden = refl

-- A snapshot is taken, and then a `put`, `put_with_ttl` or `delete` succeeds, to a valid memtable
-- that has room for it. A read at the snapshot never returns the new value: at the key of the write
-- it returns what the tables hold that is older than the snapshot, even where the memtable held an
-- older value, and at any other key what it returned before the write.
pub get_at-run_op :
    (binary_search : List Bytes → Bytes → Search) (crc32 : Bytes → ℕ) (ln2_rounded : ℕ → ℕ)
    (in_buffer : WalWriter → ℕ) (now : ℕ) (op : Op) (e : Engine) (entries : Entries)
    → Holding e.memtable entries
    → HasRoom now op e.next_seq e.memtable
    → e.next_seq < 2 ^ 64
    → (e' : Engine) × (run_op crc32 ln2_rounded in_buffer now op e ≡ (e', ok tt))
      × ((later : ℕ) (key : Bytes)
          → (get_at binary_search later key (snapshot e) e').1 ≡ (
              if bytes_eq (key_of op) key
              then tables_at binary_search later (snapshot e) key e
              else (get_at binary_search later key (snapshot e) e).1))
unfolding snapshot
get_at-run_op binary_search crc32 ln2_rounded in_buffer now op e entries h room lt =
    let (e', returns, x) = run_op_lem crc32 ln2_rounded in_buffer now op e entries h room in
    let snap = snapshot e in
    (
      e',
      returns,
      λ later key.
          let b = bytes_eq (key_of op) key in
          let v = stored now op e.next_seq in
          let same : tables_at binary_search later snap key e'
              ≡ tables_at binary_search later snap key e =
            ap₂ (λ rs c. (get_readers binary_search (visible later snap) key (reverse rs) c).1)
              x.readers x.block_cache in
          get_at-Holding binary_search later snap key e' _ x.grown.holding
          ∙ ap (answer_at binary_search later snap key e') (lookup-insert (key_of op) key v entries)
          ∙ answer_at-if binary_search later snap b key e' v (lookup key entries)
              (visible-stored later now e.next_seq op snap lt refl)
          ∙ ap₂ (λ (a c : Result (Option Bytes)). if b then a else c) same
              (answer_at-same binary_search later snap key e e' (lookup key entries) same
                ∙ sym (get_at-Holding binary_search later snap key e entries h)),
    )
