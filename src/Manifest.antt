-- ===== src/Manifest.antt =====
-- src/manifest.rs: which SSTable files belong to which level, and the file that records it.
pub mod Levels
pub mod RoundTrip
pub mod Torn
use rust_kvdb.Prelude.{
  ℕ, zero, suc, ◌+◌, ◌-◌, ◌==◌, ltb, if◌then◌else◌, not, Bool, true, false, Option, none, some,
  List, [], ◌∷◌, ◌++◌, length, get_elem?, set, String,
}
use mathlib.Core.Option.{get_or}
use rust_kvdb.Bytes.{Bytes}
use rust_kvdb.Bytes.Order.{bytes_eq}
use rust_kvdb.Bytes.Le.{to_le_bytes, from_le_bytes}
use rust_kvdb.Bytes.Cursor.{slice, as_u32, sized}
use rust_kvdb.KvError.{Arg, num, text, Message, KvError, corruption, Result, ok, err, panic, ◌>>=◌}

-- `b"KVDB"`
abbrev pub magic : Bytes
magic = b'K' ∷ b'V' ∷ b'D' ∷ b'B' ∷ []

abbrev pub version : ℕ
version = 1

pub record SstMeta : Type 0 where
  pub id : ℕ
  pub level : ℕ
  pub min_key : Bytes
  pub max_key : Bytes

-- `SSTMeta::new`
abbrev pub sst_meta : ℕ → ℕ → Bytes → Bytes → SstMeta
sst_meta id level min_key max_key = record {
  id = id;
  level = level;
  min_key = min_key;
  max_key = max_key;
}

pub record Manifest : Type 0 where
  pub levels : List (List SstMeta)

abbrev pub empty : Manifest
empty = record { levels = [] }

-- `levels.get(level).map_or(&[], ..)`
unfoldable pub ssts_at_level : Manifest → ℕ → List SstMeta
ssts_at_level m level = get_or (get_elem? m.levels level) []

-- `while levels.len() <= level { levels.push(Vec::new()) }`; the argument counts the rounds.
unfoldable pub grow : ℕ → List (List SstMeta) → List (List SstMeta)
grow zero levels = levels
grow (suc n) levels = grow n (levels ++ ([] ∷ []))

unfoldable pub add_sst : ℕ → SstMeta → Manifest → Manifest
unfolding grow
add_sst level meta m =
    let levels = grow (suc level - length m.levels) m.levels in
    record { levels = set levels level (get_or (get_elem? levels level) [] ++ (meta ∷ [])) }

-- `level.retain(|m| m.id != id)`
unfoldable pub retain_other : ℕ → List SstMeta → List SstMeta
retain_other id [] = []
retain_other id (m ∷ ms) =
    let rest = retain_other id ms in if not (m.id == id) then m ∷ rest else rest

unfoldable pub remove_loop : ℕ → List (List SstMeta) → List (List SstMeta) × Bool
unfolding retain_other
remove_loop id [] = ([], false)
remove_loop id (level ∷ levels) =
    let kept = retain_other id level in
    let others = remove_loop id levels in
    if ltb (length kept) (length level) then (kept ∷ levels, true) else (kept ∷ others.0, others.1)

-- The levels behind the one that held the id are not looked at.
unfoldable pub remove_sst : ℕ → Manifest → Manifest × Bool
unfolding remove_loop
remove_sst id m = (record { levels = (remove_loop id m.levels).0 }, (remove_loop id m.levels).1)

abbrev pub sum_lengths : List (List SstMeta) → ℕ
sum_lengths [] = 0
sum_lengths (l ∷ ls) = length l + sum_lengths ls

unfoldable pub total_ssts : Manifest → ℕ
total_ssts m = sum_lengths m.levels

unfoldable pub encode_sst : SstMeta → Bytes
encode_sst sst = to_le_bytes 8 sst.id ++ (sized sst.min_key ++ sized sst.max_key)

unfoldable pub encode_ssts : List SstMeta → Bytes
unfolding encode_sst
encode_ssts [] = []
encode_ssts (sst ∷ ssts) = encode_sst sst ++ encode_ssts ssts

unfoldable pub encode_levels : List (List SstMeta) → Bytes
unfolding encode_ssts
encode_levels [] = []
encode_levels (level ∷ levels) =
    to_le_bytes 4 (as_u32 (length level)) ++ (encode_ssts level ++ encode_levels levels)

unfoldable pub encode : Manifest → Bytes
unfolding encode_levels
encode m =
    magic
    ++ (to_le_bytes 4 version
        ++ (to_le_bytes 4 (as_u32 (length m.levels)) ++ encode_levels m.levels))

abbrev pub plain : String → KvError
plain s = corruption (record { format = s; args = [] })

abbrev pub in_field : String → String → KvError
in_field s field = corruption (record { format = s; args = text field ∷ [] })

-- `data[pos..pos + n]`; an index out of range panics.
abbrev read : Bytes → ℕ → ℕ → Result Bytes
read buf pos n = if ltb (length buf) (pos + n) then panic else ok (slice buf pos n)

-- `from_le_bytes` of the `n` bytes at an index
abbrev read_num : Bytes → ℕ → ℕ → Result ℕ
read_num buf pos n =
    if ltb (length buf) (pos + n) then panic else ok (from_le_bytes (slice buf pos n))

-- `&mut pos` is an argument, and comes back beside the result.
unfoldable pub decode_bytes : Bytes → ℕ → String → Result (Bytes × ℕ)
decode_bytes buf pos field =
    if ltb (length buf) (pos + 4) then err (in_field "manifest truncated at {} len" field) else do
      len ← read_num buf pos 4
      if ltb (length buf) (pos + 4 + len)
          then err (in_field "manifest truncated at {} data" field)
          else do bytes ← read buf (pos + 4) len; ok (bytes, pos + 4 + len)

unfoldable pub decode_sst_meta : Bytes → ℕ → Result (SstMeta × ℕ)
unfolding decode_bytes
decode_sst_meta buf p =
    if ltb (length buf) (p + 8) then err (plain "manifest truncated at sst id") else do
      id ← read_num buf p 8
      (min_key, p') ← decode_bytes buf (p + 8) "min_key"
      (max_key, p'') ← decode_bytes buf p' "max_key"
      ok (record { id = id; level = 0; min_key = min_key; max_key = max_key }, p'')

-- `for _ in 0..num_ssts`; the capacity that the code reserves first is not modelled.
unfoldable pub decode_ssts : ℕ → Bytes → ℕ → Result (List SstMeta × ℕ)
unfolding decode_sst_meta
decode_ssts zero buf pos = ok ([], pos)
decode_ssts (suc n) buf pos = do
  (sst, pos') ← decode_sst_meta buf pos
  (ssts, pos'') ← decode_ssts n buf pos'
  ok (sst ∷ ssts, pos'')

-- `for _ in 0..num_levels`
unfoldable pub decode_levels : ℕ → Bytes → ℕ → Result (List (List SstMeta) × ℕ)
unfolding decode_ssts
decode_levels zero buf pos = ok ([], pos)
decode_levels (suc n) buf pos =
    if ltb (length buf) (pos + 4) then err (plain "manifest truncated at level count") else do
      num_ssts ← read_num buf pos 4
      (ssts, pos') ← decode_ssts num_ssts buf (pos + 4)
      (levels, pos'') ← decode_levels n buf pos'
      ok (ssts ∷ levels, pos'')

unfoldable pub decode : Bytes → Result Manifest
unfolding decode_levels
decode buf =
    if ltb (length buf) 12 then err (plain "manifest too short (need at least 12 bytes)") else do
      start ← read buf 0 4
      found ← read_num buf 4 4
      num_levels ← read_num buf 8 4
      if not (bytes_eq start magic)
          then err (
              corruption
                (record { format = "invalid manifest magic: {:?}"; args = Arg.bytes start ∷ [] }))
          else if not (found == version)
          then err (
              corruption
                (record { format = "unsupported manifest version: {}"; args = num found ∷ [] }))
          else do (levels, _) ← decode_levels num_levels buf 12; ok (record { levels = levels })

-- `load`: `none` where no file exists, else what the file holds.
unfoldable pub load : Option Bytes → Result Manifest
unfolding decode
load none = ok empty
load (some contents) = decode contents
