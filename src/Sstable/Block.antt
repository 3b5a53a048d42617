-- ===== src/Sstable/Block.antt =====
-- src/sstable/block.rs: a data block, and its prefix-compressed form.
pub mod RoundTrip
pub mod Size
use rust_kvdb.Prelude.{
  ℕ, zero, suc, ◌+◌, ◌-◌, ◌%◌, ◌^◌, ◌==◌, ltb, if◌then◌else◌, Bool, true, false, Option, none, some,
  List, [], ◌∷◌, ◌++◌, length, take, drop, is_empty, String,
}
use mathlib.Core.List.{get_last?}
use rust_kvdb.Bytes.{Bytes}
use rust_kvdb.Bytes.Le.{to_le_bytes}
use rust_kvdb.Bytes.Cursor.{slice, u16_at, u32_at, as_u32, sized}
use rust_kvdb.KvError.{Message, KvError, corruption, Result, ok, err, panic, ◌>>=◌}

abbrev pub Entry : Type 0
Entry = Bytes × Bytes

pub record Block : Type 0 where
  pub entries : List Entry
  pub encoded_size : ℕ

-- `ENTRY_HEADER`
abbrev pub entry_header : ℕ
entry_header = 8

-- `Block::new`
abbrev pub new : Block
new = record { entries = []; encoded_size = 0 }

unfoldable pub add : Bytes → Bytes → Block → Block
add key value b = record {
  entries = b.entries ++ ((key, value) ∷ []);
  encoded_size = b.encoded_size + (entry_header + length key + length value);
}

abbrev pub estimated_size : Block → ℕ
estimated_size b = b.encoded_size

-- `last_key`, which panics on an empty block
unfoldable pub last_key : Block → Result Bytes
last_key b = elim (get_last? b.entries) [ none ↦ panic | some e ↦ ok e.0 ]

-- `a.iter().zip(b.iter()).take_while(|(x, y)| x == y).count()`
unfoldable pub prefix_shared_len : Bytes → Bytes → ℕ
prefix_shared_len [] b = 0
prefix_shared_len (x ∷ a) [] = 0
prefix_shared_len (x ∷ a) (y ∷ b) =
    let rest = prefix_shared_len a b in if x == y then suc rest else 0

-- `n as u16`
abbrev pub as_u16 : ℕ → ℕ
as_u16 n = n % 2 ^ 16

-- One round of the loop of `encode`.
unfoldable pub encode_entry : Bytes → Entry → Bytes
encode_entry prev_key (key, value) =
    let shared = prefix_shared_len prev_key key in
    let suffix = drop shared key in
    to_le_bytes 2 (as_u16 shared)
    ++ (to_le_bytes 2 (as_u16 (length suffix)) ++ (suffix ++ sized value))

unfoldable pub encode_entries : Bytes → List Entry → Bytes
unfolding encode_entry
encode_entries prev_key [] = []
encode_entries prev_key (e ∷ es) = encode_entry prev_key e ++ encode_entries e.0 es

unfoldable pub encode : Block → Bytes
unfolding encode_entries
encode b = to_le_bytes 4 (as_u32 (length b.entries)) ++ encode_entries [] b.entries

abbrev pub truncated : String → KvError
truncated s = corruption (record { format = s; args = [] })

-- `&prev_key[..shared]`, which panics if the key is shorter
unfoldable pub shared_part : ℕ → Bytes → Result Bytes
shared_part shared prev_key =
    if ltb (length prev_key) shared then panic else ok (take shared prev_key)

-- The value, from its length on.
unfoldable pub decode_value : Bytes → Bytes → ℕ → Result (Entry × ℕ)
decode_value buf key offset =
    if ltb (length buf) (offset + 4)
    then err (truncated "block truncated in value_len")
    else let value_len = u32_at buf offset in
      if ltb (length buf) (offset + 4 + value_len)
      then err (truncated "block truncated in value")
      else ok ((key, slice buf (offset + 4) value_len), offset + 4 + value_len)

-- One round of the loop of `decode`; the offset comes back beside the entry.
unfoldable pub decode_entry : Bytes → Bytes → ℕ → Result (Entry × ℕ)
unfolding shared_part decode_value
decode_entry buf prev_key offset =
    if ltb (length buf) (offset + 4)
    then err (truncated "block truncated in prefix header")
    else let shared = u16_at buf offset in
      let suffix_len = u16_at buf (offset + 2) in
      if ltb (length buf) (offset + 4 + suffix_len)
      then err (truncated "block truncated in key suffix")
      else do
        front ← shared_part shared prev_key
        decode_value buf (front ++ slice buf (offset + 4) suffix_len) (offset + 4 + suffix_len)

-- `for _ in 0..num_entries`
unfoldable pub decode_entries : ℕ → Bytes → Bytes → ℕ → Result (List Entry × ℕ)
unfolding decode_entry
decode_entries zero buf prev_key offset = ok ([], offset)
decode_entries (suc n) buf prev_key offset = do
  (e, offset') ← decode_entry buf prev_key offset
  (es, offset'') ← decode_entries n buf e.0 offset'
  ok (e ∷ es, offset'')

unfoldable pub decode : Bytes → Result Block
unfolding decode_entries
decode buf = if ltb (length buf) 4 then err (truncated "block too short") else do
  (entries, offset) ← decode_entries (u32_at buf 0) buf [] 4
  ok (record { entries = entries; encoded_size = offset - 4 })
