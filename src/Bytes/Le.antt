-- ===== src/Bytes/Le.antt =====
-- `to_le_bytes` and `from_le_bytes` of the integer types.
use native.Mathlib.Nat.{pow-suc}
use rust_kvdb.Prelude.{
  ℕ, zero, suc, ◌+◌, ◌*◌, ◌/◌, ◌%◌, ◌^◌, ◌<◌, ◌≡◌, refl, ap₂, List, [], ◌∷◌, arith, length, All,
}

-- `v.to_le_bytes()` of an integer of `w` bytes.
unfoldable pub to_le_bytes : ℕ → ℕ → List ℕ
to_le_bytes zero v = []
to_le_bytes (suc w) v = (v % 256) ∷ to_le_bytes w (v / 256)

-- `from_le_bytes` of as many bytes as there are.
unfoldable pub from_le_bytes : List ℕ → ℕ
from_le_bytes [] = 0
from_le_bytes (b ∷ bs) = b + 256 * from_le_bytes bs

pub length-to_le_bytes : (w v : ℕ) → length (to_le_bytes w v) ≡ w
unfolding to_le_bytes
length-to_le_bytes zero v = refl
length-to_le_bytes (suc w) v = omega (arith, length-to_le_bytes w (v / 256))

pub to_le_bytes-IsBytes : (w v : ℕ) → All (λ b. b < 256) (to_le_bytes w v)
unfolding to_le_bytes
to_le_bytes-IsBytes zero v = tt
to_le_bytes-IsBytes (suc w) v = (omega arith, to_le_bytes-IsBytes w (v / 256))

-- What fits in the bytes is read back.
pub from-to_le_bytes : (w v : ℕ) → v < 256 ^ w → from_le_bytes (to_le_bytes w v) ≡ v
unfolding to_le_bytes from_le_bytes
from-to_le_bytes zero v h = omega arith
from-to_le_bytes (suc w) v h = omega (arith, from-to_le_bytes w (v / 256) (omega arith))

-- Bytes that are read are written back.
pub to-from_le_bytes :
    (bs : List ℕ) → All (λ b. b < 256) bs → to_le_bytes (length bs) (from_le_bytes bs) ≡ bs
unfolding to_le_bytes from_le_bytes
to-from_le_bytes [] h = refl
to-from_le_bytes (b ∷ bs) (hb, hbs) =
    let q : (b + 256 * from_le_bytes bs) / 256 ≡ from_le_bytes bs = omega arith in
    let r : (b + 256 * from_le_bytes bs) % 256 ≡ b = omega arith in
    ap₂ ◌∷◌ r (rw q (to-from_le_bytes bs hbs))

pub from_le_bytes-lt : (bs : List ℕ) → All (λ b. b < 256) bs → from_le_bytes bs < 256 ^ length bs
unfolding from_le_bytes
from_le_bytes-lt [] h = omega arith
from_le_bytes-lt (b ∷ bs) (hb, hbs) =
    omega (arith, from_le_bytes-lt bs hbs, pow-suc 256 (length bs))
