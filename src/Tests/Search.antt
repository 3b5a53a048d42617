-- ===== src/Tests/Search.antt =====
-- A search that does what `slice::binary_search_by` promises, and lookups with it.
use rust_kvdb.Prelude.{
  ℕ, zero, suc, none, some, List, [], ◌∷◌, get_elem?, take, drop, All, Ordering, inl, inr, ap, ◌≡◌,
  refl, arith,
}
use rust_kvdb.Bytes.{Bytes}
use rust_kvdb.Bytes.Order.{
  compare_bytes, compare_bytes_cases, eq_of_compare_bytes, compare_bytes_trans, compare_bytes-flip,
  compare_bytes-flip_lt,
}
use rust_kvdb.KvError.{ok}
use rust_kvdb.SortedMap.{lookup, IsSorted}
use rust_kvdb.Cache
use rust_kvdb.Sstable.Reader.Get.{IsTable}
use rust_kvdb.Sstable.Reader.{SstableReader, Search, found, missing, open_with_cache, get}
use rust_kvdb.Sstable.Reader.Lookup.{IsSortedKeys, IsBinarySearch}
use rust_kvdb.Manifest.{sst_meta}
use rust_kvdb.Memtable.SkipList.Valid.{contents}
use rust_kvdb.Sstable.Block.{Block}
use rust_kvdb.Sstable.Reader.{read_block}
use rust_kvdb.Cache.{CacheKey}
use rust_kvdb.KvError.{Result}
use rust_kvdb.Engine.{Engine}
use rust_kvdb.Engine.Value.{unpack_value}
use rust_kvdb.Engine.Read.{visible, get_at}
use rust_kvdb.Engine.Read
use rust_kvdb.Engine.Read.Newest.{HasTables, first_answer, get-first_answer}
use rust_kvdb.Engine.Flush.Tables.{table_file, get-table_file, table_file_lem}
use rust_kvdb.Tests.Memory.{cell}
use rust_kvdb.Tests.Writes.{engine, engine-Holding}
use rust_kvdb.Tests.Files.{entries, small, entries-fit}

abbrev shift : Search → Search
shift (found i) = found (suc i)
shift (missing i) = missing (suc i)

pub search_for : List Bytes → Bytes → Search
unfolding compare_bytes
search_for [] key = missing 0
search_for (k ∷ keys) key =
    let later = shift (search_for keys key) in
    elim (compare_bytes k key) [
      | Ordering.lt ↦ later
      | Ordering.eq ↦ found 0
      | Ordering.gt ↦ missing 0
    ]

shift-found : (s : Search) (i : ℕ) → shift s ≡ found i → (j : ℕ) × (s ≡ found j) × (i ≡ suc j)
shift-found (found j) i e = (j, refl, cc e)
shift-found (missing j) i e = absurd (cc e)

shift-missing : (s : Search) (i : ℕ) → shift s ≡ missing i → (j : ℕ) × (s ≡ missing j) × (i ≡ suc j)
shift-missing (found j) i e = absurd (cc e)
shift-missing (missing j) i e = (j, refl, cc e)

search_for_hit :
    (keys : List Bytes) (key : Bytes) (i : ℕ)
    → search_for keys key ≡ found i
    → get_elem? keys i ≡ some key
unfolding search_for
search_for_hit [] key i e = absurd (cc e)
search_for_hit (k ∷ keys) key i e = elim (compare_bytes_cases k key) [
  | inl lt ↦
      let e' : shift (search_for keys key) ≡ found i = rw (search_for, lt) at e in
      let (j, hit, n) = shift-found (search_for keys key) i e' in
      rw n (search_for_hit keys key j hit)
  | inr (inl eq) ↦
      let e' : found 0 ≡ found i = rw (search_for, eq) at e in
      let n : i ≡ 0 = cc e' in rw n (ap some (eq_of_compare_bytes k key eq))
  | inr (inr gt) ↦ let e' : missing 0 ≡ found i = rw (search_for, gt) at e in absurd (cc e')
]

above_all :
    (k key : Bytes) (keys : List Bytes)
    → compare_bytes key k ≡ Ordering.lt
    → All (λ j. compare_bytes k j ≡ Ordering.lt) keys
    → All (λ j. compare_bytes j key ≡ Ordering.gt) keys
above_all k key [] lt a = tt
above_all k key (j ∷ keys) lt (p, a) =
    (compare_bytes-flip_lt key j (compare_bytes_trans key k j lt p), above_all k key keys lt a)

search_for_miss :
    (keys : List Bytes) (key : Bytes) (i : ℕ)
    → IsSortedKeys keys
    → search_for keys key ≡ missing i
    → All (λ k. compare_bytes k key ≡ Ordering.lt) (take i keys)
      × All (λ k. compare_bytes k key ≡ Ordering.gt) (drop i keys)
unfolding search_for
search_for_miss [] key zero s e = (tt, tt)
search_for_miss [] key (suc i) s e = (tt, tt)
search_for_miss (k ∷ keys) key i (below, s) e = elim (compare_bytes_cases k key) [
  | inl lt ↦
      let e' : shift (search_for keys key) ≡ missing i = rw (search_for, lt) at e in
      let (j, miss, n) = shift-missing (search_for keys key) i e' in
      let (a, b) = search_for_miss keys key j s miss in rw n ((lt, a), b)
  | inr (inl eq) ↦ let e' : found 0 ≡ missing i = rw (search_for, eq) at e in absurd (cc e')
  | inr (inr gt) ↦
      let e' : missing 0 ≡ missing i = rw (search_for, gt) at e in
      let n : i ≡ 0 = cc e' in
      rw n (tt, (gt, above_all k key keys (compare_bytes-flip k key gt) below))
]

pub search_for-IsBinarySearch : IsBinarySearch search_for
search_for-IsBinarySearch = record {
  hit = λ keys key i s e. search_for_hit keys key i e;
  miss = search_for_miss;
}

entries-IsSorted : IsSorted entries
unfolding compare_bytes
entries-IsSorted = ((refl, tt), (tt, tt))

get-table_file_example :
    (contents : Bytes) × (table_file (λ n. n) 16 entries ≡ ok contents)
    × (r : SstableReader) × (open_with_cache contents 3 ≡ ok r)
    × ((key : Bytes)
        → ((get search_for key r none).1 ≡ ok (lookup key entries))
          × ((get search_for key r (some (Cache.new 100))).1 ≡ ok (lookup key entries)))
get-table_file_example =
    get-table_file search_for (λ n. n) 16 entries 3 100 search_for-IsBinarySearch entries-IsSorted
      entries-fit (omega arith) small

-- A reader of a table of the entries, and an engine that has it.
abbrev written_table :
    (contents : Bytes) × (table_file (λ n. n) 16 entries ≡ ok contents)
    × (r : SstableReader) × (open_with_cache contents 3 ≡ ok r)
    × IsTable r entries
    × (r.sst_id ≡ 3)
written_table = table_file_lem (λ n. n) 16 entries 3 entries-fit (omega arith) small

abbrev table_reader : SstableReader
table_reader = written_table.2

abbrev table_disk : CacheKey → Result Block
table_disk k = read_block table_reader k.block_idx

abbrev with_table : Engine
with_table = record engine {
  sst_readers = (sst_meta 3 0 (b'a' ∷ []) (b'b' ∷ []), table_reader) ∷ [];
  block_cache = none;
}

with_table-HasTables : HasTables table_disk with_table (entries ∷ [])
with_table-HasTables = record {
  readers = (record { table = written_table.4; sorted = entries-IsSorted; same = λ i. refl }, tt);
  cache = tt;
}

get-first_answer_example :
    ((e' : Engine) × (Read.get search_for 0 (b'b' ∷ []) with_table ≡ (
      e',
      ok (
          first_answer
            (λ v. some (unpack_value 0 v))
            (b'b' ∷ [])
            (contents (cell ∷ []) ∷ entries ∷ [])),
    ))
      × HasTables table_disk e' (entries ∷ [])
      × (e'.memtable ≡ with_table.memtable))
    × ((e' : Engine) × (get_at search_for 0 (b'b' ∷ []) (record { seq = 4 }) with_table ≡ (
      e',
      ok (
          first_answer
            (visible 0 (record { seq = 4 }))
            (b'b' ∷ [])
            (contents (cell ∷ []) ∷ entries ∷ [])),
    ))
        × HasTables table_disk e' (entries ∷ [])
        × (e'.memtable ≡ with_table.memtable))
get-first_answer_example =
    get-first_answer table_disk search_for search_for-IsBinarySearch 0 (b'b' ∷ [])
      (record { seq = 4 }) with_table (contents (cell ∷ [])) (entries ∷ []) engine-Holding
      with_table-HasTables
