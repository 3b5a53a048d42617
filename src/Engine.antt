-- ===== src/Engine.antt =====
-- src/engine.rs: the engine's state and its steps. The directory is a part of the state; writes to
-- its files succeed, but for those to the log, whose outcome is an argument.
pub mod Value
pub mod Read
pub mod Flush
pub mod Write
pub mod Open
use rust_kvdb.Prelude.{
  if◌then◌else◌, ℕ, ◌+◌, ◌*◌, ◌%◌, ◌^◌, Bool, true, Option, none, some, List, [], ◌∷◌,
}
use rust_kvdb.Bytes.{Bytes}
use rust_kvdb.KvError.{Result, ok, err, panic}
use rust_kvdb.Wal.Writer.{WalWriter}
use rust_kvdb.Manifest.{SstMeta, Manifest}
use rust_kvdb.Memtable.MemTable.{MemTable}
use rust_kvdb.Sstable.Reader.{SstableReader}
use rust_kvdb.Cache.{BlockCache}

pub record Options : Type 0 where
  pub memtable_size : ℕ
  pub block_size : ℕ
  pub l0_compaction_threshold : ℕ
  pub sync_wal : Bool
  pub max_levels : ℕ
  pub bloom_filter_bits_per_key : ℕ
  pub block_cache_size : ℕ

-- `Options::default()`
abbrev pub default_options : Options
default_options = record {
  memtable_size = 4 * 1024 * 1024;
  block_size = 4096;
  l0_compaction_threshold = 4;
  sync_wal = true;
  max_levels = 7;
  bloom_filter_bits_per_key = 10;
  block_cache_size = 8 * 1024 * 1024;
}

pub record Metrics : Type 0 where
  pub writes : ℕ
  pub reads : ℕ
  pub deletes : ℕ
  pub compactions : ℕ
  pub flushes : ℕ

abbrev pub no_metrics : Metrics
no_metrics = record { writes = 0; reads = 0; deletes = 0; compactions = 0; flushes = 0 }

-- The files beside the log: the manifest's bytes, and the tables by their id.
pub record Files : Type 0 where
  pub manifest_file : Option Bytes
  pub sst_files : List (ℕ × Bytes)

-- `random` is the state of the thread's generator.
pub record Engine : Type 0 where
  pub files : Files
  pub wal : WalWriter
  pub memtable : MemTable
  pub manifest : Manifest
  pub sst_readers : List (SstMeta × SstableReader)
  pub next_sst_id : ℕ
  pub next_seq : ℕ
  pub opts : Options
  pub metrics : Metrics
  pub block_cache : Option BlockCache
  pub random : ℕ

pub record Snapshot : Type 0 where
  pub seq : ℕ

-- `n += 1` of a `u64`
abbrev pub next_u64 : ℕ → ℕ
next_u64 n = (n + 1) % 2 ^ 64

-- A method that takes `&mut self` and returns `Result<()>`.
abbrev pub Step : Type 0
Step = Engine → Engine × Result (Unit {0})

abbrev pub done : Step
done e = (e, ok tt)

-- The rest of a method, with what is there so far if a step before it returned `Err` or panicked.
abbrev pub on_ok {ℓ} : {A : Type ℓ} → (A → Step) → Engine → Result A → Engine × Result (Unit {0})
on_ok rest e (ok a) = rest a e
on_ok rest e (err x) = (e, err x)
on_ok rest e panic = (e, panic)

-- `first?; rest`
infixr 4 ◌and_then◌
abbrev pub ◌and_then◌ : Step → Step → Step
(first and_then rest) e = let p = first e in on_ok (λ _. rest) p.0 p.1

-- `none` is a fault of the skip list.
abbrev pub of_fault {ℓ} : {A : Type ℓ} → Option A → Result A
of_fault none = panic
of_fault (some a) = ok a

-- `retain`, and `filter` of an iterator
unfoldable pub retain {ℓ} : {A : Type ℓ} → (A → Bool) → List A → List A
retain p [] = []
retain p (a ∷ l) = let rest = retain p l in if p a then a ∷ rest else rest
