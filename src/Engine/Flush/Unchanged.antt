-- ===== src/Engine/Flush/Unchanged.antt =====
-- Lookups before and after `maybe_flush` of src/engine.rs.
use rust_kvdb.Bytes.{Bytes}
use rust_kvdb.Manifest
use rust_kvdb.Sstable.Block.{Block}
use rust_kvdb.Engine.{Engine}
