-- ===== src/Bytes.antt =====
-- Byte strings (`Vec<u8>`, `&[u8]`): lists of numbers below 256.
pub mod Le
pub mod Order
pub mod Cursor
use rust_kvdb.Prelude.{ℕ, ◌<◌, ◌^◌, List, All}

abbrev pub Bytes : Type 0
Bytes = List ℕ

-- A `u8`, a `u32` and a `u64`.
abbrev pub IsU8 : ℕ → Type 0
IsU8 b = b < 256

abbrev pub IsU32 : ℕ → Type 0
IsU32 v = v < 2 ^ 32

abbrev pub IsU64 : ℕ → Type 0
IsU64 v = v < 2 ^ 64

abbrev pub IsBytes : List ℕ → Type 0
IsBytes = All IsU8
