-- ===== src/Db.antt =====
-- `DB` of src/engine.rs: the handle that threads share, an engine behind a lock, and its metrics.
pub mod Poison
use rust_kvdb.Prelude.{ℕ, ◌+◌, ◌-◌, ◌==◌, if◌then◌else◌, Bool, true, false, Option, List, []}
use rust_kvdb.Bytes.{Bytes}
use rust_kvdb.KvError.{KvError, internal, Result, ok, err, panic, ◌>>=◌}
use rust_kvdb.SortedMap.{Entries}
use rust_kvdb.WriteBatch.{WriteBatch}
use rust_kvdb.Wal.Writer.{WalWriter, Write, Sync}
use rust_kvdb.Sstable.Reader.{Search}
use rust_kvdb.Engine.{Engine, Files, Options, Snapshot, Metrics, default_options}
use rust_kvdb.Engine.Open
use rust_kvdb.Engine.Read
use rust_kvdb.Engine.Write as EngineWrite

pub record MetricsSnapshot : Type 0 where
  pub writes : ℕ
  pub reads : ℕ
  pub deletes : ℕ
  pub compactions : ℕ
  pub flushes : ℕ

-- `Metrics::snapshot`
unfoldable pub metrics_snapshot : Metrics → MetricsSnapshot
metrics_snapshot m = record {
  writes = m.writes;
  reads = m.reads;
  deletes = m.deletes;
  compactions = m.compactions;
  flushes = m.flushes;
}

-- What the handles share. A thread that panics while it holds the lock poisons it. `handles` is
-- the count of the `Arc`.
pub record Db : Type 0 where
  pub inner : Engine
  pub poisoned : Bool
  pub handles : ℕ

-- `Arc::new(Mutex::new(engine))`
abbrev pub new_db : Engine → Db
new_db engine = record { inner = engine; poisoned = false; handles = 1 }

abbrev pub is_panic {ℓ} : {A : Type ℓ} → Result A → Bool
is_panic (ok a) = false
is_panic (err e) = false
is_panic panic = true

-- `self.inner.lock().unwrap()`, and the call behind it
unfoldable pub with_lock {ℓ} : {A : Type ℓ} → (Engine → Engine × Result A) → Db → Db × Result A
with_lock call db =
    if db.poisoned
    then (db, panic)
    else let p = call db.inner in (record db { inner = p.0; poisoned = is_panic p.1 }, p.1)

-- A call that only reads the engine.
abbrev pub reading {ℓ} : {A : Type ℓ} → (Engine → A) → Engine → Engine × Result A
reading f e = (e, ok (f e))

abbrev pub other_references : KvError
other_references = internal (record { format = "cannot close: other references exist"; args = [] })

-- `clone`, and the drop of a handle
unfoldable pub clone : Db → Db
clone db = record db { handles = db.handles + 1 }

unfoldable pub drop_handle : Db → Db
drop_handle db = record db { handles = db.handles - 1 }

unfoldable pub snapshot : Db → Db × Result Snapshot
unfolding with_lock
snapshot = with_lock (reading Read.snapshot)

unfoldable pub metrics : Db → Db × Result MetricsSnapshot
unfolding with_lock metrics_snapshot
metrics = with_lock (reading (λ e. metrics_snapshot e.metrics))

unfoldable pub scan : ℕ → Bytes → Bytes → Db → Db × Result Entries
unfolding with_lock
scan now start end = with_lock (Read.scan now start end)

unfoldable pub prefix_scan : ℕ → Bytes → Db → Db × Result Entries
unfolding with_lock
prefix_scan now prefix = with_lock (Read.prefix_scan now prefix)

module _ (binary_search : List Bytes → Bytes → Search) where
  unfoldable pub get : ℕ → Bytes → Db → Db × Result (Option Bytes)
  unfolding with_lock
  get now key = with_lock (Read.get binary_search now key)

  unfoldable pub get_at : ℕ → Bytes → Snapshot → Db → Db × Result (Option Bytes)
  unfolding with_lock
  get_at now key snap = with_lock (Read.get_at binary_search now key snap)

module _ (crc32 : Bytes → ℕ) (ln2_rounded : ℕ → ℕ) (in_buffer : WalWriter → ℕ) where
  unfoldable pub open_with_options : Options → ℕ → Files → Option Bytes → Result Db
  open_with_options opts v files wal =
      Open.open_with_options crc32 opts v files wal >>= λ engine. ok (new_db engine)

  -- `open`
  abbrev pub open_default : ℕ → Files → Option Bytes → Result Db
  open_default = open_with_options default_options

  unfoldable pub put : Write → Sync → ℕ → Bytes → Bytes → Db → Db × Result (Unit {0})
  unfolding with_lock
  put w s now key value = with_lock (EngineWrite.put crc32 ln2_rounded in_buffer w s now key value)

  unfoldable pub delete : Write → Sync → ℕ → Bytes → Db → Db × Result (Unit {0})
  unfolding with_lock
  delete w s now key = with_lock (EngineWrite.delete crc32 ln2_rounded in_buffer w s now key)

  unfoldable pub put_with_ttl : Write → Sync → ℕ → Bytes → Bytes → ℕ → Db → Db × Result (Unit {0})
  unfolding with_lock
  put_with_ttl w s now key value ttl =
      with_lock (EngineWrite.put_with_ttl crc32 ln2_rounded in_buffer w s now key value ttl)

  unfoldable pub write_batch : (ℕ → Write) → Sync → ℕ → WriteBatch → Db → Db × Result (Unit {0})
  unfolding with_lock
  write_batch outcomes s now batch =
      with_lock (EngineWrite.write_batch crc32 ln2_rounded in_buffer outcomes s now batch)

  -- `close` takes the handle; the engine is closed if there is no other.
  unfoldable pub close : Sync → ℕ → Db → Db × Result (Unit {0})
  unfolding drop_handle
  close s now db =
      if db.handles == 1
      then if db.poisoned
        then (drop_handle db, panic)
        else (let p = EngineWrite.close crc32 ln2_rounded in_buffer s now db.inner in
            (record db { inner = p.0; handles = 0 }, p.1))
      else (drop_handle db, err other_references)
