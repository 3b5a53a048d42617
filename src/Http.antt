-- ===== src/Http.antt =====
-- src/http/handler.rs: the handlers over the shared `DB`. A string is its UTF-8 bytes; `lossy` is
-- `String::from_utf8_lossy`, and `uptime` the seconds since the start.
pub mod PutGet
use rust_kvdb.Prelude.{
  ℕ, ◌+◌, ◌/◌, ◌%◌, ltb, if◌then◌else◌, Bool, true, false, Option, none, some, List, [], ◌∷◌, ◌++◌,
  length, String,
}
use rust_kvdb.Bytes.{Bytes}
use rust_kvdb.KvError.{Message, num, bytes, Result, ok, err, panic}
use rust_kvdb.Wal.Writer.{WalWriter, Write, Sync}
use rust_kvdb.Sstable.Reader.{Search}
use rust_kvdb.Db
use rust_kvdb.Db.{Db, MetricsSnapshot}

pub record HealthResponse : Type 0 where
  pub status : String
  pub version : String
  pub uptime_secs : ℕ

pub record StatsResponse : Type 0 where
  pub sst_count : ℕ
  pub memtable_size : ℕ

pub record KvResponse : Type 0 where
  pub found : Bool
  pub key : Bytes
  pub value : Option Bytes
  pub value_hex : Option Bytes

pub record PutRequest : Type 0 where
  pub key : Bytes
  pub value : Bytes

pub record ActionResponse : Type 0 where
  pub success : Bool
  pub message : Message

pub data StatusCode : Type 0 where
  internal_server_error : StatusCode

-- What a handler answers; a panic ends its task.
pub data Response (A : Type 0) : Type 0 where
  json : A → Response A
  status : StatusCode → Response A
  panicked : Response A

-- `format!("{:02x}", b)`
abbrev pub hex_digit : ℕ → ℕ
hex_digit n = if ltb n 10 then 48 + n else 87 + n

abbrev pub hex_byte : ℕ → Bytes
hex_byte b = hex_digit (b / 16) ∷ hex_digit (b % 16) ∷ []

-- The bytes in hexadecimal, with `join(" ")`
unfoldable pub hex : Bytes → Bytes
hex [] = []
hex (b ∷ []) = hex_byte b
hex (b ∷ c ∷ bs) = hex_byte b ++ (b' ' ∷ hex (c ∷ bs))

-- The version is that of Cargo.toml.
unfoldable pub health : ℕ → HealthResponse
health uptime = record { status = "ok"; version = "0.1.0"; uptime_secs = uptime }

abbrev pub metrics_answer : Result MetricsSnapshot → Response MetricsSnapshot
metrics_answer (ok m) = json m
metrics_answer (err e) = panicked
metrics_answer panic = panicked

-- `MetricsResponse` has the fields of the snapshot.
unfoldable pub metrics : Db → Db × Response MetricsSnapshot
unfolding Db.metrics
metrics db = let p = Db.metrics db in (p.0, metrics_answer p.1)

unfoldable pub stats : StatsResponse
stats = record { sst_count = 0; memtable_size = 0 }

-- `Ok(())` becomes this message; an error is only logged.
abbrev pub action_answer : Message → Result (Unit {0}) → Response ActionResponse
action_answer message (ok u) = json (record { success = true; message = message })
action_answer message (err e) = status internal_server_error
action_answer message panic = panicked

abbrev pub get_answer : (Bytes → Bytes) → Bytes → Result (Option Bytes) → Response KvResponse
get_answer lossy key (ok (some val)) =
    json (record { found = true; key = key; value = some (lossy val); value_hex = some (hex val) })
get_answer lossy key (ok none) =
    json (record { found = false; key = key; value = none; value_hex = none })
get_answer lossy key (err e) = status internal_server_error
get_answer lossy key panic = panicked

unfoldable pub get_key :
    (Bytes → Bytes) → (List Bytes → Bytes → Search) → ℕ → Bytes → Db → Db × Response KvResponse
unfolding Db.get hex
get_key lossy binary_search now key db =
    let p = Db.get binary_search now key db in (p.0, get_answer lossy key p.1)

abbrev pub wrote : PutRequest → Message
wrote req = record {
  format = "OK: wrote {} bytes to '{}'";
  args = num (length req.value) ∷ bytes req.key ∷ [];
}

abbrev pub deleted : Bytes → Message
deleted key = record { format = "OK: deleted '{}'"; args = bytes key ∷ [] }

module _ (crc32 : Bytes → ℕ) (ln2_rounded : ℕ → ℕ) (in_buffer : WalWriter → ℕ) where
  unfoldable pub put_key : Write → Sync → ℕ → PutRequest → Db → Db × Response ActionResponse
  unfolding Db.put
  put_key w s now req db =
      let p = Db.put crc32 ln2_rounded in_buffer w s now req.key req.value db in
      (p.0, action_answer (wrote req) p.1)

  unfoldable pub delete_key : Write → Sync → ℕ → Bytes → Db → Db × Response ActionResponse
  unfolding Db.delete
  delete_key w s now key db =
      let p = Db.delete crc32 ln2_rounded in_buffer w s now key db in
      (p.0, action_answer (deleted key) p.1)

-- `compact` does nothing.
unfoldable pub compact : ActionResponse
compact = record {
  success = true;
  message = record { format = "compaction is triggered automatically on flush"; args = [] };
}
