-- ===== src/Bloom/Bits.antt =====
-- The binary digits of `|` and `&`, which the filter tests one at a time.
use Prim.Native.Nat.{bit_and, bit_or, bit_and-bitwise, bit_or-bitwise, digits, min, max}
use rust_kvdb.Prelude.{
  ℕ, zero, suc, ◌+◌, ◌*◌, ◌/◌, ◌%◌, ◌^◌, ◌≤◌, ◌<◌, ◌≡◌, ◌≢◌, refl, ap, ◌∙◌, arith,
}

-- Digit `k`, from the lowest.
abbrev pub bit : ℕ → ℕ → ℕ
bit zero w = w % 2
bit (suc k) w = bit k (w / 2)

bit-lt : (k w : ℕ) → bit k w < 2
bit-lt zero w = omega arith
bit-lt (suc k) w = bit-lt k (w / 2)

bit-zero : (k : ℕ) → bit k 0 ≡ 0
bit-zero zero = refl
bit-zero (suc k) = bit-zero k

-- An operation on numbers that works digit by digit.
module _ (z : ℕ → ℕ) (f : ℕ → ℕ → ℕ) (last : (k b : ℕ) → bit k (z b) ≡ f 0 (bit k b))
    (small : (x y : ℕ) → x < 2 → y < 2 → f x y < 2) where
  bit-digits : (k n a b : ℕ) → a ≤ n → bit k (digits z f n a b) ≡ f (bit k a) (bit k b)
  bit-digits k zero zero b h = rw bit-zero (last k b)
  bit-digits k zero (suc a) b h = absurd (omega arith)
  bit-digits k (suc n) zero b h = rw bit-zero (last k b)
  bit-digits zero (suc n) (suc a) b h =
      omega (arith, small (suc a % 2) (b % 2) (omega arith) (omega arith))
  bit-digits (suc k) (suc n) (suc a) b h =
      let low = f (suc a % 2) (b % 2) in
      let rest = digits z f n (suc a / 2) (b / 2) in
      let half : (rest * 2 + low) / 2 ≡ rest =
        omega (arith, small (suc a % 2) (b % 2) (omega arith) (omega arith)) in
      ap (bit k) half ∙ bit-digits k n (suc a / 2) (b / 2) (omega arith)

pub bit-bit_or : (k a b : ℕ) → bit k (bit_or a b) ≡ max (bit k a) (bit k b)
bit-bit_or k a b =
    ap (bit k) (bit_or-bitwise a b)
    ∙ bit-digits (λ c. c) max (λ i c. omega arith) (λ x y p q. omega arith) k a a b (omega arith)

pub bit-bit_and : (k a b : ℕ) → bit k (bit_and a b) ≡ min (bit k a) (bit k b)
bit-bit_and k a b =
    ap (bit k) (bit_and-bitwise a b)
    ∙ bit-digits (λ c. 0) min (λ i c. bit-zero i ∙ omega arith) (λ x y p q. omega arith) k a a b
        (omega arith)

pub bit-power : (k : ℕ) → bit k (2 ^ k) ≡ 1
bit-power zero = refl
bit-power (suc k) = let half : 2 ^ suc k / 2 ≡ 2 ^ k = omega arith in ap (bit k) half ∙ bit-power k

-- Setting a digit sets it, and keeps the digits that are set.
pub bit-set_self : (k w : ℕ) → bit k (bit_or w (2 ^ k)) ≡ 1
bit-set_self k w = omega (arith, bit-bit_or k w (2 ^ k), bit-power k, bit-lt k w)

pub bit-set_keeps : (j k w : ℕ) → bit j w ≡ 1 → bit j (bit_or w (2 ^ k)) ≡ 1
bit-set_keeps j k w h = omega (arith, bit-bit_or j w (2 ^ k), h, bit-lt j (2 ^ k))

-- The test of a digit that is set.
pub bit_and-ne-zero : (k w : ℕ) → bit k w ≡ 1 → bit_and w (2 ^ k) ≢ 0
bit_and-ne-zero k w h e =
    omega (arith, bit-bit_and k w (2 ^ k), bit-power k, h, ap (bit k) e, bit-zero k)

-- Numbers of so many digits have a `|` of so many.
digits-lt : (k n a b : ℕ) → a ≤ n → a < 2 ^ k → b < 2 ^ k → digits (λ c. c) max n a b < 2 ^ k
digits-lt k zero a b h p q = q
digits-lt k (suc n) zero b h p q = q
digits-lt zero (suc n) (suc a) b h p q = absurd (omega arith)
digits-lt (suc k) (suc n) (suc a) b h p q =
    let rest = digits-lt k n (suc a / 2) (b / 2) (omega arith) (omega arith) (omega arith) in
    let low : max (suc a % 2) (b % 2) < 2 = omega arith in omega (arith, rest, low)

pub bit_or-lt : (k a b : ℕ) → a < 2 ^ k → b < 2 ^ k → bit_or a b < 2 ^ k
bit_or-lt k a b p q = rw bit_or-bitwise (digits-lt k a a b (omega arith) p q)

power-pos : (k : ℕ) → 0 < 2 ^ k
power-pos zero = omega arith
power-pos (suc k) = omega (arith, power-pos k)

pub power-lt : (j k : ℕ) → j < k → 2 ^ j < 2 ^ k
power-lt zero zero h = absurd (omega arith)
power-lt zero (suc k) h = omega (arith, power-pos k)
power-lt (suc j) zero h = absurd (omega arith)
power-lt (suc j) (suc k) h = omega (arith, power-lt j k (omega arith))
