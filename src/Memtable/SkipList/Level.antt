-- ===== src/Memtable/SkipList/Level.antt =====
-- The level that `random_level` draws.
use Prim.Native.Nat.{bit_or, bit_or-bitwise}
use rust_kvdb.Prelude.{◌<◌, ℕ, zero, suc, ◌%◌, ◌≡◌, refl, arith}
use rust_kvdb.Memtable.SkipList.{random_level, trailing_zeros}

bit_or-odd : (v : ℕ) → bit_or v 1 % 2 ≡ 1
bit_or-odd zero = refl
bit_or-odd (suc v) = rw bit_or-bitwise (omega arith)

-- Whatever the generator's state, the level drawn is 0: the code sets the lowest bit of the
-- number before it counts its trailing zeros.
pub random_level-eq-zero : (v max_level : ℕ) → random_level v max_level ≡ 0
unfolding random_level trailing_zeros
random_level-eq-zero v max_level = ground (arith, bit_or-odd v)

pub random_level-lt : (v max_level : ℕ) → 0 < max_level → random_level v max_level < max_level
unfolding random_level
random_level-lt v max_level h = omega arith
