-- ===== src/Cli/Batch.antt =====
-- What `kv-cli <db-path> batch ...` of src/bin/cli.rs makes of its arguments.
use rust_kvdb.Prelude.{some, List, [], ◌∷◌, ◌++◌, append_assoc, append-nil, ◌≡◌, ap, sym, ◌∙◌}
use rust_kvdb.Bytes.{Bytes}
use rust_kvdb.Bytes.Order.{compare_bytes}
use rust_kvdb.WriteBatch.{BatchOp, WriteBatch, new}
use rust_kvdb.Cli.{put_word, delete_word, parse_batch}

-- The arguments that ask for operations, as the usage text says.
abbrev pub words : WriteBatch → List Bytes
words [] = []
words (BatchOp.put key value ∷ ops) = put_word ∷ key ∷ value ∷ words ops
words (BatchOp.delete key ∷ ops) = delete_word ∷ key ∷ words ops

-- The operations but for a `delete` that comes last.
abbrev pub without_last_delete : WriteBatch → WriteBatch
without_last_delete [] = []
without_last_delete (BatchOp.put key value ∷ ops) = BatchOp.put key value ∷ without_last_delete ops
without_last_delete (BatchOp.delete key ∷ []) = []
without_last_delete (BatchOp.delete key ∷ op ∷ ops) =
    BatchOp.delete key ∷ without_last_delete (op ∷ ops)

parse_batch_lem :
    (ops batch : WriteBatch)
    → parse_batch (words ops) batch ≡ some (batch ++ without_last_delete ops)
unfolding parse_batch compare_bytes
parse_batch_lem [] batch = ap some (sym (append-nil batch))
parse_batch_lem (BatchOp.put key value ∷ ops) batch =
    parse_batch_lem ops (batch ++ (BatchOp.put key value ∷ []))
    ∙ ap some (append_assoc batch (BatchOp.put key value ∷ []) (without_last_delete ops))
parse_batch_lem (BatchOp.delete key ∷ []) batch = ap some (sym (append-nil batch))
parse_batch_lem (BatchOp.delete key ∷ BatchOp.put k v ∷ ops) batch =
    parse_batch_lem (BatchOp.put k v ∷ ops) (batch ++ (BatchOp.delete key ∷ []))
    ∙ ap some (append_assoc batch (BatchOp.delete key ∷ []) _)
parse_batch_lem (BatchOp.delete key ∷ BatchOp.delete k ∷ ops) batch =
    parse_batch_lem (BatchOp.delete k ∷ ops) (batch ++ (BatchOp.delete key ∷ []))
    ∙ ap some (append_assoc batch (BatchOp.delete key ∷ []) _)

-- The arguments for any operations are accepted, and make a batch of exactly those operations, in
-- their order, but for a `delete` that comes last, which is left out.
pub parse_batch-words :
    (ops : WriteBatch) → parse_batch (words ops) new ≡ some (without_last_delete ops)
parse_batch-words ops = parse_batch_lem ops []
