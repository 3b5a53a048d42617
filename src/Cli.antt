-- ===== src/Cli.antt =====
-- src/bin/cli.rs: the commands of `kv-cli`. Strings are their UTF-8 bytes; `utf8` is whether
-- `std::str::from_utf8` accepts bytes, `lossy` is `String::from_utf8_lossy`, and `elapsed` the time
-- that a command measures. What goes to the standard error is left out.
pub mod Batch
use rust_kvdb.Prelude.{
  ℕ, ◌+◌, ltb, if◌then◌else◌, Bool, true, false, Option, none, some, List, [], ◌∷◌, ◌++◌, length,
  map, get_elem?,
}
use rust_kvdb.Bytes.{Bytes}
use rust_kvdb.Bytes.Order.{bytes_eq}
use rust_kvdb.KvError.{Message, num, bytes, Result, ok, err, panic}
use rust_kvdb.SortedMap.{Entries}
use rust_kvdb.WriteBatch
use rust_kvdb.WriteBatch.{WriteBatch, add_put, add_delete}
use rust_kvdb.Wal.Writer.{WalWriter, Write, Sync}
use rust_kvdb.Sstable.Reader.{Search}
use rust_kvdb.Db
use rust_kvdb.Db.{Db, MetricsSnapshot}
use rust_kvdb.Http.{hex}

-- The exit code, and the lines on the standard output.
abbrev pub Ended : Type 0
Ended = ℕ × List Message

-- `process::exit(1)`
abbrev pub exit_1 : Ended
exit_1 = (1, [])

-- `unwrap_or_else(|e| process::exit(1))`; a panic ends the process with 101.
abbrev pub or_exit {ℓ} : {A : Type ℓ} → (A → List Message) → Result A → Ended
or_exit f (ok a) = (0, f a)
or_exit f (err e) = exit_1
or_exit f panic = (101, [])

abbrev pub put_word : Bytes
put_word = b'p' ∷ b'u' ∷ b't' ∷ []

abbrev pub get_word : Bytes
get_word = b'g' ∷ b'e' ∷ b't' ∷ []

abbrev pub delete_word : Bytes
delete_word = b'd' ∷ b'e' ∷ b'l' ∷ b'e' ∷ b't' ∷ b'e' ∷ []

abbrev pub scan_word : Bytes
scan_word = b's' ∷ b'c' ∷ b'a' ∷ b'n' ∷ []

abbrev pub stats_word : Bytes
stats_word = b's' ∷ b't' ∷ b'a' ∷ b't' ∷ b's' ∷ []

abbrev pub batch_word : Bytes
batch_word = b'b' ∷ b'a' ∷ b't' ∷ b'c' ∷ b'h' ∷ []

-- `while i + 2 < args.len()`, on the arguments from `i` on; `none` is an unknown operation.
unfoldable pub parse_batch : List Bytes → WriteBatch → Option WriteBatch
unfolding add_put add_delete
parse_batch [] batch = some batch
parse_batch (op ∷ []) batch = some batch
parse_batch (op ∷ a ∷ []) batch = some batch
parse_batch (op ∷ a ∷ b ∷ rest) batch =
    let after_put = parse_batch rest (add_put a b batch) in
    let after_delete = parse_batch (b ∷ rest) (add_delete a batch) in
    if bytes_eq op put_word
    then after_put
    else if bytes_eq op delete_word
    then after_delete
    else none

abbrev pub took : ℕ → Message
took elapsed = record { format = "OK ({:.3?})"; args = num elapsed ∷ [] }

abbrev pub show_value : (Bytes → Bool) → ℕ → Option Bytes → List Message
show_value utf8 elapsed none = record { format = "(nil) ({:.3?})"; args = num elapsed ∷ [] } ∷ []
show_value utf8 elapsed (some value) =
    record {
      format = "{} ({:.3?})";
      args = bytes (if utf8 value then value else hex value) ∷ num elapsed ∷ [];
    }
    ∷ []

abbrev pub show_entry : (Bytes → Bytes) → Bytes × Bytes → Message
show_entry lossy (k, v) = record {
  format = "{} = {}";
  args = bytes (lossy k) ∷ bytes (lossy v) ∷ [];
}

abbrev pub show_metrics : MetricsSnapshot → List Message
show_metrics m =
    record { format = "Writes:       {}"; args = num m.writes ∷ [] }
    ∷ record { format = "Reads:        {}"; args = num m.reads ∷ [] }
    ∷ record { format = "Deletes:      {}"; args = num m.deletes ∷ [] }
    ∷ record { format = "Compactions:  {}"; args = num m.compactions ∷ [] }
    ∷ record { format = "Flushes:      {}"; args = num m.flushes ∷ [] }
    ∷ []

-- A command that ends without a call of the database.
abbrev pub refuse : Db → Db × Ended
refuse db = (db, exit_1)

-- A call of the database, and what is printed of its result.
abbrev pub calling {ℓ} : {A : Type ℓ} → (A → List Message) → Db × Result A → Db × Ended
calling f p = (p.0, or_exit f p.1)

module _ (utf8 : Bytes → Bool) (lossy : Bytes → Bytes) (binary_search : List Bytes → Bytes → Search)
    (crc32 : Bytes → ℕ) (ln2_rounded : ℕ → ℕ) (in_buffer : WalWriter → ℕ) where
  abbrev pub batch_command : (ℕ → Write) → Sync → ℕ → ℕ → List Bytes → Db → Db × Ended
  batch_command outcomes s now elapsed rest db = elim (parse_batch rest WriteBatch.new) [
    | none ↦ refuse db
    | some batch ↦
        calling
          (λ u.
            record {
              format = "OK: {} ops ({:.3?})";
              args = num (WriteBatch.len batch) ∷ num elapsed ∷ [];
            }
            ∷ [])
          (Db.write_batch crc32 ln2_rounded in_buffer outcomes s now batch db)
  ]

  -- The `match` on the command, with the arguments behind it; too few of them are refused.
  unfoldable pub run_command : (ℕ → Write) → Sync → ℕ → ℕ → Bytes → List Bytes → Db → Db × Ended
  unfolding Db.put Db.get Db.delete Db.scan Db.metrics Db.write_batch parse_batch hex
  run_command outcomes s now elapsed command rest db =
      if bytes_eq command put_word
      then (elim rest [
        | key ∷ value ∷ _ ↦
            calling (λ u. took elapsed ∷ [])
              (Db.put crc32 ln2_rounded in_buffer (outcomes 0) s now key value db)
        | _ ↦ refuse db
      ])
      else if bytes_eq command get_word
      then (elim rest [
        | key ∷ _ ↦ calling (show_value utf8 elapsed) (Db.get binary_search now key db)
        | _ ↦ refuse db
      ])
      else if bytes_eq command delete_word
      then (elim rest [
        | key ∷ _ ↦
            calling (λ u. took elapsed ∷ [])
              (Db.delete crc32 ln2_rounded in_buffer (outcomes 0) s now key db)
        | _ ↦ refuse db
      ])
      else if bytes_eq command scan_word
      then (elim rest [
        | start ∷ end ∷ _ ↦ calling (map (show_entry lossy)) (Db.scan now start end db)
        | _ ↦ refuse db
      ])
      else if bytes_eq command stats_word
      then calling show_metrics (Db.metrics db)
      else if bytes_eq command batch_word
      then batch_command outcomes s now elapsed rest db
      else refuse db

  -- `main`, with what opening the database returns; the program's name and the path come first.
  unfoldable pub main : (ℕ → Write) → Sync → ℕ → ℕ → List Bytes → Result Db → Option Db × Ended
  unfolding run_command
  main outcomes s now elapsed (name ∷ path ∷ command ∷ rest) (ok db) =
      let p = run_command outcomes s now elapsed command rest db in (some p.0, p.1)
  main outcomes s now elapsed (name ∷ path ∷ command ∷ rest) (err e) = (none, exit_1)
  main outcomes s now elapsed (name ∷ path ∷ command ∷ rest) panic = (none, (101, []))
  main outcomes s now elapsed [] opened = (none, exit_1)
  main outcomes s now elapsed (name ∷ []) opened = (none, exit_1)
  main outcomes s now elapsed (name ∷ path ∷ []) opened = (none, exit_1)
