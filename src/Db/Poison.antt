-- ===== src/Db/Poison.antt =====
-- A lock of `DB` that was poisoned.
use rust_kvdb.Prelude.{ℕ, Bool, true, Bool-cases, List, [], ◌∷◌, map, ◌≡◌, refl, ap, ◌∙◌, inl, inr}
use rust_kvdb.Bytes.{Bytes}
use rust_kvdb.KvError.{Result}
use rust_kvdb.WriteBatch.{WriteBatch}
use rust_kvdb.Wal.Writer.{WalWriter, Write, Sync}
use rust_kvdb.Sstable.Reader.{Search}
use rust_kvdb.Engine.{Engine, Snapshot}
use rust_kvdb.Engine.Read
use rust_kvdb.Engine.Write as EngineWrite
use rust_kvdb.Db
use rust_kvdb.Db.{Db, with_lock, is_panic, reading}

-- A call of a method of `DB`, but for `close`, with the outcomes for the log and the clock.
pub data Call : Type 0 where
  get : ℕ → Bytes → Call
  get_at : ℕ → Bytes → Snapshot → Call
  scan : ℕ → Bytes → Bytes → Call
  prefix_scan : ℕ → Bytes → Call
  snapshot : Call
  metrics : Call
  put : Write → Sync → ℕ → Bytes → Bytes → Call
  delete : Write → Sync → ℕ → Bytes → Call
  put_with_ttl : Write → Sync → ℕ → Bytes → Bytes → ℕ → Call
  write_batch : (ℕ → Write) → Sync → ℕ → WriteBatch → Call

-- What a call leaves, and whether it panicked.
abbrev outcome {ℓ} : {A : Type ℓ} → Db × Result A → Db × Bool
outcome p = (p.0, is_panic p.1)

-- A call does not run on a poisoned lock, but panics, and it leaves the lock poisoned just if it
-- panicked.
record IsGuarded (call : Db → Db × Bool) : Type 0 where
  dead : (db : Db) → db.poisoned ≡ true → call db ≡ (db, true)
  left : (db : Db) → (call db).0.poisoned ≡ (call db).1

with_lock-IsGuarded {ℓ} :
    {A : Type ℓ} (call : Engine → Engine × Result A) → IsGuarded (λ db. outcome (with_lock call db))
unfolding with_lock
with_lock-IsGuarded call = record {
  dead = λ db e. rw (with_lock, e) refl;
  left = λ db. elim (Bool-cases db.poisoned) [
    | inl on ↦ rw (with_lock, on) refl
    | inr off ↦ rw (with_lock, off) refl
  ];
}

module _ (binary_search : List Bytes → Bytes → Search) (crc32 : Bytes → ℕ) (ln2_rounded : ℕ → ℕ)
    (in_buffer : WalWriter → ℕ) where
  unfoldable pub run : Call → Db → Db × Bool
  unfolding Db.get Db.get_at Db.scan Db.prefix_scan Db.snapshot Db.metrics Db.put Db.delete
      Db.put_with_ttl Db.write_batch
  run (get now key) db = outcome (Db.get binary_search now key db)
  run (get_at now key snap) db = outcome (Db.get_at binary_search now key snap db)
  run (scan now start end) db = outcome (Db.scan now start end db)
  run (prefix_scan now prefix) db = outcome (Db.prefix_scan now prefix db)
  run snapshot db = outcome (Db.snapshot db)
  run metrics db = outcome (Db.metrics db)
  run (put w s now key value) db = outcome (Db.put crc32 ln2_rounded in_buffer w s now key value db)
  run (delete w s now key) db = outcome (Db.delete crc32 ln2_rounded in_buffer w s now key db)
  run (put_with_ttl w s now key value ttl) db =
      outcome (Db.put_with_ttl crc32 ln2_rounded in_buffer w s now key value ttl db)
  run (write_batch outcomes s now batch) db =
      outcome (Db.write_batch crc32 ln2_rounded in_buffer outcomes s now batch db)

  -- Calls one after the other, from any handles, and which of them panicked.
  unfoldable pub run_all : List Call → Db → Db × List Bool
  unfolding run
  run_all [] db = (db, [])
  run_all (call ∷ calls) db =
      let (db1, r) = run call db in let (db2, rs) = run_all calls db1 in (db2, r ∷ rs)

  run-IsGuarded : (call : Call) → IsGuarded (run call)
  unfolding run Db.get Db.get_at Db.scan Db.prefix_scan Db.snapshot Db.metrics Db.put Db.delete
      Db.put_with_ttl Db.write_batch
  run-IsGuarded (get now key) = with_lock-IsGuarded (Read.get binary_search now key)
  run-IsGuarded (get_at now key snap) = with_lock-IsGuarded (Read.get_at binary_search now key snap)
  run-IsGuarded (scan now start end) = with_lock-IsGuarded (Read.scan now start end)
  run-IsGuarded (prefix_scan now prefix) = with_lock-IsGuarded (Read.prefix_scan now prefix)
  run-IsGuarded snapshot = with_lock-IsGuarded (reading Read.snapshot)
  run-IsGuarded metrics = with_lock-IsGuarded (reading (λ e. Db.metrics_snapshot e.metrics))
  run-IsGuarded (put w s now key value) =
      with_lock-IsGuarded (EngineWrite.put crc32 ln2_rounded in_buffer w s now key value)
  run-IsGuarded (delete w s now key) =
      with_lock-IsGuarded (EngineWrite.delete crc32 ln2_rounded in_buffer w s now key)
  run-IsGuarded (put_with_ttl w s now key value ttl) =
      with_lock-IsGuarded
        (EngineWrite.put_with_ttl crc32 ln2_rounded in_buffer w s now key value ttl)
  run-IsGuarded (write_batch outcomes s now batch) =
      with_lock-IsGuarded (EngineWrite.write_batch crc32 ln2_rounded in_buffer outcomes s now batch)

  run_all-poisoned :
      (calls : List Call) (db : Db)
      → db.poisoned ≡ true
      → run_all calls db ≡ (db, map (λ call. true) calls)
  unfolding run_all
  run_all-poisoned [] db e = refl
  run_all-poisoned (call ∷ calls) db e =
      ap (λ p. let q = run_all calls p.0 in (q.0, p.1 ∷ q.1)) ((run-IsGuarded call).dead db e)
      ∙ ap (λ q. (q.0, true ∷ q.1)) (run_all-poisoned calls db e)

  -- A method of `DB`, other than `close`, that panics ends the use of the database: the lock is
  -- poisoned, and every later call of these methods, from any handle, panics, and none of them runs
  -- on the engine, which stays as the panic left it.
  pub run_all-panic :
      (call : Call) (calls : List Call) (db : Db)
      → (run call db).1 ≡ true
      → ((run call db).0.poisoned ≡ true)
        × (run_all calls (run call db).0 ≡ ((run call db).0, map (λ call. true) calls))
  run_all-panic call calls db e =
      let dead = (run-IsGuarded call).left db ∙ e in
      (dead, run_all-poisoned calls (run call db).0 dead)
