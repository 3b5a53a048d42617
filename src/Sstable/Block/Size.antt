-- ===== src/Sstable/Block/Size.antt =====
-- The size estimate of a block against the bytes that `encode` writes.
use rust_kvdb.Prelude.{
  ℕ, ◌+◌, ◌≤◌, List, [], ◌∷◌, ◌++◌, length, drop, ◌≡◌, length-drop, length-append, arith, refl, sym,
  ap, ◌∙◌, append-nil, append_assoc,
}
use rust_kvdb.Bytes.{Bytes}
use rust_kvdb.Bytes.Le.{to_le_bytes, length-to_le_bytes}
use rust_kvdb.Bytes.Cursor.{as_u32, sized, length-sized}
use rust_kvdb.Sstable.Block.{
  Entry, Block, new, add, estimated_size, prefix_shared_len, as_u16, encode_entry, encode_entries,
  encode,
}

-- Appending entries keeps the size of the block at the sum over its entries.
abbrev pub raw_size : List Entry → ℕ
raw_size [] = 0
raw_size (e ∷ es) = 8 + length e.0 + length e.1 + raw_size es

length-encode_entries :
    (prev_key : Bytes) (es : List Entry) → length (encode_entries prev_key es) ≤ raw_size es
unfolding encode_entries encode_entry
length-encode_entries prev_key [] = omega arith
length-encode_entries prev_key (e ∷ es) =
    let shared = prefix_shared_len prev_key e.0 in
    let suffix = drop shared e.0 in
    let n = as_u16 (length suffix) in
    let m = as_u16 shared in
    omega (
      arith,
      length-append (to_le_bytes 2 m ++ (to_le_bytes 2 n ++ (suffix ++ sized e.1)))
          (encode_entries e.0 es),
      length-append (to_le_bytes 2 m) (to_le_bytes 2 n ++ (suffix ++ sized e.1)),
      length-append (to_le_bytes 2 n) (suffix ++ sized e.1),
      length-append suffix (sized e.1),
      length-to_le_bytes 2 m,
      length-to_le_bytes 2 n,
      length-sized e.1,
      length-drop shared e.0,
      length-encode_entries e.0 es,
    )

raw_size-append : (es fs : List Entry) → raw_size (es ++ fs) ≡ raw_size es + raw_size fs
raw_size-append [] fs = omega arith
raw_size-append (e ∷ es) fs = omega (arith, raw_size-append es fs)

-- The block counts the raw size of its entries; only `decode` sets it otherwise.
abbrev pub IsSized : Block → Type 0
IsSized b = b.encoded_size ≡ raw_size b.entries

pub add-IsSized : (key value : Bytes) (b : Block) → IsSized b → IsSized (add key value b)
unfolding add
add-IsSized key value b h = omega (arith, h, raw_size-append b.entries ((key, value) ∷ []))

length-encode-le : (b : Block) → IsSized b → length (encode b) ≤ 4 + b.encoded_size
unfolding encode
length-encode-le b h =
    let n = as_u32 (length b.entries) in
    omega (
      arith,
      length-append (to_le_bytes 4 n) (encode_entries [] b.entries),
      length-to_le_bytes 4 n,
      length-encode_entries [] b.entries,
    )

-- `add` of the entries of a list, one after the other.
unfoldable pub add_all : List Entry → Block → Block
unfolding add
add_all [] b = b
add_all ((key, value) ∷ es) b = add_all es (add key value b)

add_all_lem :
    (es : List Entry) (b : Block)
    → IsSized b
    → ((add_all es b).entries ≡ b.entries ++ es) × IsSized (add_all es b)
unfolding add_all add
add_all_lem [] b h = (sym (append-nil b.entries), h)
add_all_lem ((key, value) ∷ es) b h =
    let (all, sized_) = add_all_lem es (add key value b) (add-IsSized key value b h) in
    (all ∙ append_assoc b.entries ((key, value) ∷ []) es, sized_)

-- A block that `add` has filled holds the entries in their order. Its estimated size is eight bytes
-- for each, and their keys and values, and it never encodes to more than that and the four bytes
-- of the entry count.
pub estimated_size-add_all :
    (es : List Entry)
    → ((add_all es new).entries ≡ es)
      × (estimated_size (add_all es new) ≡ raw_size es)
      × (length (encode (add_all es new)) ≤ 4 + raw_size es)
estimated_size-add_all es =
    let (all, sized_) = add_all_lem es new refl in
    let size : (add_all es new).encoded_size ≡ raw_size es = sized_ ∙ ap raw_size all in
    (all, size, omega (arith, size, length-encode-le (add_all es new) sized_))
