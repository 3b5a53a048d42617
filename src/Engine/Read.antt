-- ===== src/Engine/Read.antt =====
-- The lookups and the scans of src/engine.rs. `now` is the time that the operation reads.
pub mod Newest
use rust_kvdb.Prelude.{
  ℕ, ◌+◌, ltb, if◌then◌else◌, not, Bool, true, false, ◌&&◌, Option, none, some, List, [], ◌∷◌, map,
}
use mathlib.Core.List.{reverse}
use rust_kvdb.Bytes.{Bytes}
use rust_kvdb.Bytes.Order.{bytes_lt, bytes_eq}
use rust_kvdb.KvError.{Result, ok, err, panic}
use rust_kvdb.SortedMap.{Entries}
use rust_kvdb.Manifest.{SstMeta}
use rust_kvdb.Memtable.MemTable
use rust_kvdb.Memtable.MemTable.{insert_all}
use rust_kvdb.Cache.{BlockCache}
use rust_kvdb.Sstable.Reader
use rust_kvdb.Sstable.Reader.{SstableReader, Search}
use rust_kvdb.Engine.{Engine, Snapshot, retain}
use rust_kvdb.Engine.Value.{
  tombstone, decode_with_seq, unwrap_ttl, unpack_inner, unpack_value, next_key,
}

-- What the memtable holds at the key, if it was written before the snapshot.
unfoldable pub visible : ℕ → Snapshot → Bytes → Option (Option Bytes)
unfolding decode_with_seq unpack_inner
visible now snap v = elim (decode_with_seq v) [
  | none ↦ none
  | some p ↦ if ltb p.1 snap.seq then some (unpack_inner now p.0) else none
]

unfoldable pub snapshot : Engine → Snapshot
snapshot e = record { seq = e.next_seq }

-- A value that is not a tombstone and has not expired.
unfoldable pub is_live : ℕ → Bytes → Bool
unfolding decode_with_seq unwrap_ttl
is_live now v = elim (decode_with_seq v) [
  | none ↦ true
  | some p ↦
      if bytes_eq p.0 tombstone
      then false
      else elim (unwrap_ttl now p.0) [ none ↦ false | some x ↦ true ]
]

unfoldable pub display_value : ℕ → Bytes → Bytes
unfolding decode_with_seq unpack_inner
display_value now v = elim (decode_with_seq v) [
  | none ↦ []
  | some p ↦ elim (unpack_inner now p.0) [ none ↦ [] | some x ↦ x ]
]

-- `k >= start && k < end`
abbrev pub in_range : Bytes → Bytes → Bytes × Bytes → Bool
in_range start end e = not (bytes_lt e.0 start) && bytes_lt e.0 end

-- `for (k, v) in reader.iter()` over the readers, into the map
unfoldable pub scan_readers :
    Bytes
    → Bytes
    → List (SstMeta × SstableReader)
    → Entries
    → Option BlockCache
    → Option BlockCache × Result Entries
unfolding Reader.iter
scan_readers start end [] m cache = (cache, ok m)
scan_readers start end ((meta, reader) ∷ readers) m cache =
    let (cache', entries) = Reader.iter reader cache in
    elim entries [
      | ok es ↦
          scan_readers start end readers (insert_all m (retain (in_range start end) es)) cache'
      | err x ↦ (cache', err x)
      | panic ↦ (cache', panic)
    ]

-- The end of `scan`, from the map on.
abbrev finish_scan : ℕ → Entries → Entries
finish_scan now m = map (λ e. (e.0, display_value now e.1)) (retain (λ e. is_live now e.1) m)

unfoldable pub scan : ℕ → Bytes → Bytes → Engine → Engine × Result Entries
unfolding scan_readers MemTable.scan is_live display_value
scan now start end e =
    let (cache, tables) = scan_readers start end e.sst_readers [] e.block_cache in
    let e' = record e { block_cache = cache } in
    elim tables [
      | ok m ↦ elim (MemTable.scan start end e.memtable) [
        | none ↦ (e', panic)
        | some recent ↦ (e', ok (finish_scan now (insert_all m recent)))
      ]
      | err x ↦ (e', err x)
      | panic ↦ (e', panic)
    ]

unfoldable pub prefix_scan : ℕ → Bytes → Engine → Engine × Result Entries
unfolding scan next_key
prefix_scan now prefix e = scan now prefix (next_key prefix) e

module _ (binary_search : List Bytes → Bytes → Search) where
  -- The first answer that `answer` makes of a value found, over the readers in this order.
  unfoldable pub get_readers :
      (Bytes → Option (Option Bytes))
      → Bytes
      → List (SstMeta × SstableReader)
      → Option BlockCache
      → Option BlockCache × Result (Option Bytes)
  unfolding Reader.get
  get_readers answer key [] cache = (cache, ok none)
  get_readers answer key ((meta, reader) ∷ readers) cache =
      let (cache', found) = Reader.get binary_search key reader cache in
      elim found [
        | ok none ↦ get_readers answer key readers cache'
        | ok (some v) ↦ elim (answer v) [
          | none ↦ get_readers answer key readers cache'
          | some r ↦ (cache', ok r)
        ]
        | err x ↦ (cache', err x)
        | panic ↦ (cache', panic)
      ]

  -- The answer of the tables, the last pushed first.
  abbrev in_tables :
      (Bytes → Option (Option Bytes)) → Bytes → Engine → Engine × Result (Option Bytes)
  in_tables answer key e =
      let (cache, found) = get_readers answer key (reverse e.sst_readers) e.block_cache in
      (record e { block_cache = cache }, found)

  -- What is made of the memtable's answer; the tables are asked where it has none.
  abbrev pub after_memtable :
      (Bytes → Option (Option Bytes))
      → Bytes
      → Option (Option Bytes)
      → Engine
      → Engine × Result (Option Bytes)
  after_memtable answer key none e = (e, panic)
  after_memtable answer key (some none) e = in_tables answer key e
  after_memtable answer key (some (some v)) e = elim (answer v) [
    | none ↦ in_tables answer key e
    | some r ↦ (e, ok r)
  ]

  unfoldable pub search :
      (Bytes → Option (Option Bytes)) → Bytes → Engine → Engine × Result (Option Bytes)
  unfolding get_readers MemTable.get
  search answer key e = after_memtable answer key (MemTable.get key e.memtable) e

  unfoldable pub get : ℕ → Bytes → Engine → Engine × Result (Option Bytes)
  unfolding search unpack_value
  get now key e =
      let metrics = record e.metrics { reads = e.metrics.reads + 1 } in
      search (λ v. some (unpack_value now v)) key (record e { metrics = metrics })

  unfoldable pub get_at : ℕ → Bytes → Snapshot → Engine → Engine × Result (Option Bytes)
  unfolding search visible
  get_at now key snap e = search (visible now snap) key e
