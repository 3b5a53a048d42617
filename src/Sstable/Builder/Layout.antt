-- ===== src/Sstable/Builder/Layout.antt =====
-- How an SSTable file is laid out: its blocks, and what the builder keeps of them.
use rust_kvdb.Prelude.{
  ℕ, ◌+◌, ◌<◌, ltb, ◌&&◌, List, [], ◌∷◌, ◌++◌, length, map, All, All-append, length-append,
  append_assoc, append-nil, ◌≡◌, refl, ap, ap₂, sym, ◌∙◌, arith, Bool-cases, inl, inr,
}
use mathlib.Core.List.{map-append}
use rust_kvdb.Bytes.{Bytes}
use rust_kvdb.Bytes.Cursor.{as_u32}
use rust_kvdb.KvError.{ok}
use rust_kvdb.Sstable.Block
use rust_kvdb.Sstable.Block.{Block, Entry, last_key}
use rust_kvdb.Sstable.Block.Size.{IsSized, raw_size, add-IsSized}
use rust_kvdb.Sstable.Builder.{SstableBuilder, flush_block, add, add_entry}

abbrev pub block_of : List Entry → Block
block_of es = record { entries = es; encoded_size = 0 }

-- The blocks one behind the other.
abbrev pub written : List (List Entry) → Bytes
written [] = []
written (es ∷ blocks) = Block.encode (block_of es) ++ written blocks

abbrev pub last_of : List Entry → Bytes
last_of [] = []
last_of (e ∷ []) = e.0
last_of (e ∷ f ∷ es) = last_of (f ∷ es)

-- The index of blocks, the first of which starts at this offset.
abbrev pub index_of : ℕ → List (List Entry) → List (ℕ × Bytes)
index_of offset [] = []
index_of offset (es ∷ blocks) =
    (as_u32 offset, last_of es) ∷ index_of (offset + length (Block.encode (block_of es))) blocks

abbrev pub all_entries : List (List Entry) → List Entry
all_entries [] = []
all_entries (es ∷ blocks) = es ++ all_entries blocks

-- A builder that has written these blocks.
pub record Layout (b : SstableBuilder) (blocks : List (List Entry)) : Type 0 where
  pub file : b.file ≡ written blocks
  pub index : b.index_entries ≡ index_of 0 blocks
  pub position : b.bytes_written ≡ as_u32 (length b.file)
  pub keys : b.all_keys ≡ map (λ e. e.0) (all_entries blocks ++ b.current_block.entries)
  pub sized : IsSized b.current_block
  pub full : All (λ es. 0 < length es) blocks

pub written-append : (xs ys : List (List Entry)) → written (xs ++ ys) ≡ written xs ++ written ys
written-append [] ys = refl
written-append (es ∷ xs) ys =
    ap (◌++◌ (Block.encode (block_of es))) (written-append xs ys)
    ∙ sym (append_assoc (Block.encode (block_of es)) (written xs) (written ys))

pub all_entries-append :
    (xs ys : List (List Entry)) → all_entries (xs ++ ys) ≡ all_entries xs ++ all_entries ys
all_entries-append [] ys = refl
all_entries-append (es ∷ xs) ys =
    ap (◌++◌ es) (all_entries-append xs ys)
    ∙ sym (append_assoc es (all_entries xs) (all_entries ys))

pub index_of-append :
    (offset : ℕ) (xs ys : List (List Entry))
    → index_of offset (xs ++ ys) ≡ index_of offset xs ++ index_of (offset + length (written xs)) ys
index_of-append offset [] ys = ap (λ o. index_of o ys) (omega arith)
index_of-append offset (es ∷ xs) ys =
    let n = length (Block.encode (block_of es)) in
    ap (◌∷◌ (as_u32 offset, last_of es)) (
      index_of-append (offset + n) xs ys
      ∙ ap (λ o. index_of (offset + n) xs ++ index_of o ys)
          (omega (arith, length-append (Block.encode (block_of es)) (written xs))))

last_key-last_of :
    (es : List Entry) (n : ℕ)
    → 0 < length es
    → last_key (record { entries = es; encoded_size = n }) ≡ ok (last_of es)
unfolding last_key
last_key-last_of [] n h = absurd (omega arith)
last_key-last_of (e ∷ []) n h = refl
last_key-last_of (e ∷ f ∷ es) n h = last_key-last_of (f ∷ es) n (omega arith)

encode-block_of : (b : Block) → Block.encode b ≡ Block.encode (block_of b.entries)
unfolding Block.encode
encode-block_of b = refl

-- A block that is not empty is written behind the others.
pub flush_block_lem :
    (b : SstableBuilder) (blocks : List (List Entry))
    → Layout b blocks
    → 0 < length b.current_block.entries
    → (b' : SstableBuilder) × (flush_block b ≡ ok b')
      × Layout b' (blocks ++ (b.current_block.entries ∷ []))
      × (b'.current_block ≡ Block.new)
unfolding flush_block
flush_block_lem b blocks l h =
    let es = b.current_block.entries in
    let enc = Block.encode (block_of es) in
    let extra = written-append blocks (es ∷ []) ∙ ap (◌++◌ (written blocks)) (append-nil enc) in
    let last = last_key-last_of es b.current_block.encoded_size h in
    (
      record b {
        file = b.file ++ Block.encode b.current_block;
        index_entries = b.index_entries ++ ((b.bytes_written, last_of es) ∷ []);
        bytes_written = as_u32 (b.bytes_written + as_u32 (length (Block.encode b.current_block)));
        current_block = Block.new;
      },
      rw last refl,
      record {
        file = ap₂ ◌++◌ l.file (encode-block_of b.current_block) ∙ sym extra;
        index =
            ap₂ (λ i p. i ++ ((p, last_of es) ∷ [])) l.index
              (l.position ∙ ap (λ (f : Bytes). as_u32 (length f)) l.file)
            ∙ ap (λ o. index_of 0 blocks ++ index_of o (es ∷ [])) (omega arith)
            ∙ sym (index_of-append 0 blocks (es ∷ []));
        position = omega (arith, l.position, length-append b.file (Block.encode b.current_block));
        keys =
            l.keys
            ∙ ap (map (λ e. e.0)) (
                ap (◌++◌ (all_entries blocks)) (sym (append-nil es))
                ∙ sym (all_entries-append blocks (es ∷ []))
                ∙ sym (append-nil (all_entries (blocks ++ (es ∷ [])))));
        sized = refl;
        full = All-append (λ es. 0 < length es) blocks (es ∷ []) l.full (h, tt);
      },
      refl,
    )

size_pos : (es : List Entry) (n : ℕ) → n ≡ raw_size es → 0 < n → 0 < length es
size_pos [] n e h = absurd (omega (arith, e))
size_pos (x ∷ es) n e h = omega arith

add_entry_lem :
    (key value : Bytes) (b : SstableBuilder) (blocks : List (List Entry))
    → Layout b blocks
    → Layout (add_entry key value b) blocks
unfolding Block.add
add_entry_lem key value b blocks l = record {
  file = l.file;
  index = l.index;
  position = l.position;
  keys =
      ap (λ ks. ks ++ (key ∷ [])) l.keys
      ∙ sym (
          map-append (λ e. e.0) (all_entries blocks ++ b.current_block.entries) ((key, value) ∷ []))
      ∙ ap (map (λ e. e.0)) (append_assoc (all_entries blocks) b.current_block.entries _);
  sized = add-IsSized key value b.current_block l.sized;
  full = l.full;
}

-- `add` never fails, and appends the entry to those that the builder holds.
pub add_lem :
    (key value : Bytes) (b : SstableBuilder) (blocks : List (List Entry))
    → Layout b blocks
    → (b' : SstableBuilder) × (blocks' : List (List Entry)) × (add key value b ≡ ok b')
      × Layout b' blocks'
      × (all_entries blocks' ++ b'.current_block.entries
          ≡ (all_entries blocks ++ b.current_block.entries) ++ ((key, value) ∷ []))
unfolding add Block.add
add_lem key value b blocks l =
    let es = b.current_block.entries in
    let size = b.current_block.encoded_size in
    elim (Bool-cases (ltb 0 size && ltb b.block_size (size + length key + length value + 8))) [
      | inr stays ↦ (
        add_entry key value b,
        blocks,
        rw (add, stays) refl,
        add_entry_lem key value b blocks l,
        sym (append_assoc (all_entries blocks) es ((key, value) ∷ [])),
      )
      | inl over ↦
          let some_entry : 0 < length es = size_pos es size l.sized (ground (arith, over)) in
          let (b', flushed, l', empty) = flush_block_lem b blocks l some_entry in
          (
            add_entry key value b',
            blocks ++ (es ∷ []),
            rw (add, over, flushed) refl,
            add_entry_lem key value b' (blocks ++ (es ∷ [])) l',
            ap₂ (λ (xs : List Entry) (c : Block). xs ++ (c.entries ++ ((key, value) ∷ [])))
                (all_entries-append blocks (es ∷ [])
                  ∙ ap (◌++◌ (all_entries blocks)) (append-nil es))
                empty,
          )
    ]
