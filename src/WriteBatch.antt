-- ===== src/WriteBatch.antt =====
-- src/write_batch.rs: a list of operations.
use rust_kvdb.Prelude.{ℕ, Bool, List, [], ◌∷◌, ◌++◌, length, is_empty as list_is_empty}
use rust_kvdb.Bytes.{Bytes}

pub data BatchOp : Type 0 where
  put : Bytes → Bytes → BatchOp
  delete : Bytes → BatchOp

abbrev pub WriteBatch : Type 0
WriteBatch = List BatchOp

abbrev pub new : WriteBatch
new = []

unfoldable pub add_put : Bytes → Bytes → WriteBatch → WriteBatch
add_put key value batch = batch ++ (BatchOp.put key value ∷ [])

unfoldable pub add_delete : Bytes → WriteBatch → WriteBatch
add_delete key batch = batch ++ (BatchOp.delete key ∷ [])

abbrev pub is_empty : WriteBatch → Bool
is_empty batch = list_is_empty batch

abbrev pub len : WriteBatch → ℕ
len batch = length batch
