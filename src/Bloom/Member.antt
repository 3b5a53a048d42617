-- ===== src/Bloom/Member.antt =====
-- The filter answers `true` for every key that it was built from.
use Prim.Native.Nat.{bit_and, bit_or, max}
use rust_kvdb.Prelude.{
  ℕ, zero, suc, ◌+◌, ◌*◌, ◌/◌, ◌%◌, ◌^◌, ◌==◌, ◌≤◌, ◌<◌, ◌≡◌, refl, sym, ◌∙◌, ap, arith, ◌⊎◌, true,
  false, some, List, [], ◌∷◌, length, length-set, get_elem?, get_elem?-set_self, get_elem?-set_ne,
  set, replicate, length-replicate, All, All-set, All-get_elem?, All-replicate, Bool-cases, inl,
  inr,
}
use native.Mathlib.Decide.{ℕ_discrete}
use rust_kvdb.Bytes.{Bytes, IsU64}
use rust_kvdb.KvError.{ok}
use rust_kvdb.Bloom.{
  BloomFilter, double_hash, position, set_bit, set_hashes, set_keys, optimal_hashes, build,
  bit_clear, check_hashes, may_contain,
}
use rust_kvdb.Bloom.Bits.{bit, bit-set_self, bit-set_keeps, bit_and-ne-zero, bit_or-lt, power-lt}

-- The bit at a position is set.
record HasBit (pos : ℕ) (bits : List ℕ) : Type 0 where
  word : ℕ
  at : get_elem? bits (pos / 64) ≡ some word
  one : bit (pos % 64) word ≡ 1

-- What a step that sets bits leaves: the same words, and every bit that was set.
record Grown (bits bits' : List ℕ) : Type 0 where
  same : length bits' ≡ length bits
  kept : (q : ℕ) → HasBit q bits → HasBit q bits'
  fit : All IsU64 bits → All IsU64 bits'

Grown-refl : (bits : List ℕ) → Grown bits bits
Grown-refl bits = record { same = refl; kept = λ q h. h; fit = λ f. f }

Grown-trans : {a b c : List ℕ} → Grown a b → Grown b c → Grown a c
Grown-trans g h = record {
  same = h.same ∙ g.same;
  kept = λ q x. h.kept q (g.kept q x);
  fit = λ f. h.fit (g.fit f);
}

word_at : (bits : List ℕ) (i : ℕ) → i < length bits → (w : ℕ) × (get_elem? bits i ≡ some w)
word_at [] i lt = absurd (omega arith)
word_at (w ∷ bits) zero lt = (w, refl)
word_at (w ∷ bits) (suc i) lt = word_at bits i (omega arith)

set_bit_lem :
    (pos : ℕ) (bits : List ℕ)
    → pos / 64 < length bits
    → (bits' : List ℕ) × (set_bit pos bits ≡ ok bits') × HasBit pos bits' × Grown bits bits'
unfolding set_bit
set_bit_lem pos bits lt =
    let (w, at) = word_at bits (pos / 64) lt in
    let w' = bit_or w (2 ^ (pos % 64)) in
    let self : get_elem? (set bits (pos / 64) w') (pos / 64) ≡ some w' =
      get_elem?-set_self bits (pos / 64) w' lt in
    (
      set bits (pos / 64) w',
      rw (at, set_bit) refl,
      record { word = w'; at = self; one = bit-set_self (pos % 64) w },
      record {
        same = length-set bits (pos / 64) w';
        kept = λ q x. elim (ℕ_discrete (q / 64) (pos / 64)) [
          | yes e ↦
              let is_w : x.word ≡ w = cc (x.at, at, ap (get_elem? bits) e) in
              record {
                word = w';
                at = ap (get_elem? (set bits (pos / 64) w')) e ∙ self;
                one = bit-set_keeps (q % 64) (pos % 64) w (ap (bit (q % 64)) (sym is_w) ∙ x.one);
              }
          | no ne ↦ record {
            word = x.word;
            at = get_elem?-set_ne bits (pos / 64) (q / 64) w' (λ e. ne (sym e)) ∙ x.at;
            one = x.one;
          }
        ];
        fit = λ f. All-set IsU64 bits (pos / 64) w' f (
            bit_or-lt 64 w (2 ^ (pos % 64)) (All-get_elem? IsU64 bits (pos / 64) f at)
              (power-lt (pos % 64) 64 (omega arith)));
      },
    )

-- The positions of a key, for the hash functions from `i` on.
abbrev HasKey : ℕ × ℕ → ℕ → ℕ → ℕ → List ℕ → Type 0
HasKey h num_bits zero i bits = Unit
HasKey h num_bits (suc n) i bits =
    HasBit (position h num_bits i) bits × HasKey h num_bits n (suc i) bits

HasKey-Grown :
    (h : ℕ × ℕ) (num_bits n i : ℕ) {bits bits' : List ℕ}
    → Grown bits bits'
    → HasKey h num_bits n i bits
    → HasKey h num_bits n i bits'
HasKey-Grown h num_bits zero i g k = tt
HasKey-Grown h num_bits (suc n) i g (x, k) = (g.kept _ x, HasKey-Grown h num_bits n (suc i) g k)

module _ (num_bits : ℕ) (positive : 0 < num_bits) where
  set_hashes_lem :
      (h : ℕ × ℕ) (n i : ℕ) (bits : List ℕ)
      → num_bits ≤ 64 * length bits
      → (bits' : List ℕ) × (set_hashes h num_bits n i bits ≡ ok bits')
        × HasKey h num_bits n i bits'
        × Grown bits bits'
  unfolding set_hashes
  set_hashes_lem h zero i bits room = (bits, refl, tt, Grown-refl bits)
  set_hashes_lem h (suc n) i bits room =
      let (b1, e1, x, g1) = set_bit_lem (position h num_bits i) bits (omega arith) in
      let (b2, e2, k, g2) = set_hashes_lem h n (suc i) b1 (omega (arith, g1.same)) in
      (b2, rw (e1, e2) refl, (g2.kept _ x, k), Grown-trans g1 g2)

  set_keys_lem :
      (num_hashes : ℕ) (keys : List Bytes) (bits : List ℕ)
      → num_bits ≤ 64 * length bits
      → (bits' : List ℕ) × (set_keys num_bits num_hashes keys bits ≡ ok bits')
        × All (λ key. HasKey (double_hash key) num_bits num_hashes 0 bits') keys
        × Grown bits bits'
  unfolding set_keys
  set_keys_lem num_hashes [] bits room = (bits, refl, tt, Grown-refl bits)
  set_keys_lem num_hashes (key ∷ keys) bits room =
      let (b1, e1, k, g1) = set_hashes_lem (double_hash key) num_hashes 0 bits room in
      let (b2, e2, all, g2) = set_keys_lem num_hashes keys b1 (omega (arith, g1.same)) in
      (
        b2,
        rw (e1, e2) refl,
        (HasKey-Grown (double_hash key) num_bits num_hashes 0 g2 k, all),
        Grown-trans g1 g2,
      )

bit_clear-HasBit : (pos : ℕ) (bits : List ℕ) → HasBit pos bits → bit_clear pos bits ≡ ok false
unfolding bit_clear
bit_clear-HasBit pos bits x =
    let one = bit_and-ne-zero (pos % 64) x.word x.one in
    rw (x.at, bit_clear)
      (elim (Bool-cases (bit_and x.word (2 ^ (pos % 64)) == 0)) [
        | inl zero_ ↦ absurd (ground arith)
        | inr set_ ↦ rw set_ refl
      ])

check_hashes_lem :
    (h : ℕ × ℕ) (num_bits n i : ℕ) (bits : List ℕ)
    → HasKey h num_bits n i bits
    → check_hashes h num_bits n i bits ≡ ok true
unfolding check_hashes
check_hashes_lem h num_bits zero i bits k = refl
check_hashes_lem h num_bits (suc n) i bits (x, k) =
    rw
      (
        bit_clear-HasBit (position h num_bits i) bits x,
        check_hashes_lem h num_bits n (suc i) bits k,
      )
      refl

may_contain-All :
    (f : BloomFilter) (keys : List Bytes)
    → 0 < f.num_bits
    → All (λ key. HasKey (double_hash key) f.num_bits f.num_hashes 0 f.bits) keys
    → All (λ key. may_contain key f ≡ ok true) keys
unfolding may_contain
may_contain-All f [] positive all = tt
may_contain-All f (key ∷ keys) positive (k, all) =
    let some_bits : (f.num_bits == 0) ≡ false = ground arith in
    (
      rw (some_bits, check_hashes_lem (double_hash key) f.num_bits f.num_hashes 0 f.bits k) refl,
      may_contain-All f keys positive all,
    )

-- A filter that was built: its numbers fit their fields, and it answers for each key.
pub record Built (keys : List Bytes) (bits_per_key : ℕ) (f : BloomFilter) : Type 0 where
  pub hashes : f.num_hashes ≤ 30
  pub bits : f.num_bits ≡ max (length keys * bits_per_key % 2 ^ 64) 64
  pub words : length f.bits ≡ (f.num_bits + 63) / 64
  pub fit : All IsU64 f.bits
  pub members : All (λ key. may_contain key f ≡ ok true) keys

pub build_lem :
    (ln2_rounded : ℕ → ℕ) (keys : List Bytes) (bits_per_key : ℕ)
    → (f : BloomFilter) × (build ln2_rounded keys bits_per_key ≡ ok f) × Built keys bits_per_key f
unfolding build
build_lem ln2_rounded keys bits_per_key =
    let num_bits = max (length keys * bits_per_key % 2 ^ 64) 64 in
    let num_words = (num_bits + 63) / 64 in
    let num_hashes = optimal_hashes ln2_rounded bits_per_key in
    let none_set = length-replicate {A = ℕ} num_words 0 in
    let (bits, e, all, g) =
      set_keys_lem num_bits (omega arith) num_hashes keys (replicate num_words 0)
        (omega (arith, none_set)) in
    let f : BloomFilter = record { bits = bits; num_hashes = num_hashes; num_bits = num_bits } in
    (
      f,
      rw e refl,
      record {
        hashes = omega arith;
        bits = refl;
        words = g.same ∙ none_set;
        fit = g.fit (All-replicate IsU64 num_words 0 (omega arith));
        members = may_contain-All f keys (omega arith) all;
      },
    )

-- Building a filter from any keys, at any number of bits per key whose product with their number
-- is below 2^64, does not panic, and the filter answers that it may contain each of them: there are
-- no false negatives. It has as many bits as that product, and at least 64. This holds whatever the
-- rounding of the number of hash functions yields.
pub may_contain-build :
    (ln2_rounded : ℕ → ℕ) (keys : List Bytes) (bits_per_key : ℕ)
    → length keys * bits_per_key < 2 ^ 64
    → (f : BloomFilter) × (build ln2_rounded keys bits_per_key ≡ ok f)
      × All (λ key. may_contain key f ≡ ok true) keys
      × (f.num_bits ≡ max (length keys * bits_per_key) 64)
may_contain-build ln2_rounded keys bits_per_key fits =
    let (f, e, b) = build_lem ln2_rounded keys bits_per_key in
    (f, e, b.members, omega (arith, b.bits, fits))

check_hashes_total :
    (h : ℕ × ℕ) (num_bits n i : ℕ) (bits : List ℕ)
    → 0 < num_bits
    → num_bits ≤ 64 * length bits
    → (check_hashes h num_bits n i bits ≡ ok true) ⊎ (check_hashes h num_bits n i bits ≡ ok false)
unfolding check_hashes bit_clear
check_hashes_total h num_bits zero i bits positive room = inl refl
check_hashes_total h num_bits (suc n) i bits positive room =
    let pos = position h num_bits i in
    let (w, at) = word_at bits (pos / 64) (omega arith) in
    elim (Bool-cases (bit_and w (2 ^ (pos % 64)) == 0)) [
      | inl clear ↦ inr (rw (check_hashes, bit_clear, at, clear) refl)
      | inr set_ ↦
          rw (check_hashes, bit_clear, at, set_)
            (check_hashes_total h num_bits n (suc i) bits positive room)
    ]

-- A filter that was built answers for every key.
pub may_contain_total :
    (keys : List Bytes) (bits_per_key : ℕ) (f : BloomFilter) (key : Bytes)
    → Built keys bits_per_key f
    → (may_contain key f ≡ ok true) ⊎ (may_contain key f ≡ ok false)
unfolding may_contain
may_contain_total keys bits_per_key f key b =
    let some_bits : (f.num_bits == 0) ≡ false = ground (arith, b.bits) in
    rw some_bits (
      check_hashes_total (double_hash key) f.num_bits f.num_hashes 0 f.bits (omega (arith, b.bits))
        (omega (arith, b.words)))
