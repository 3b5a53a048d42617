-- ===== src/KvError.antt =====
-- src/error.rs: the error type and its `Result`.
use rust_kvdb.Prelude.{ℕ, String, List, ◌≡◌, ◌≢◌, refl, ◌⊎◌, inl, inr}
use rust_kvdb.Bytes.{Bytes}

-- A message before it is rendered: the text of `format!`, and the values for its places.
pub data Arg : Type 0 where
  num : ℕ → Arg
  text : String → Arg
  bytes : Bytes → Arg

pub record Message : Type 0 where
  pub format : String
  pub args : List Arg

-- What the operating system reports; the code only passes it on.
pub data IoError : Type 0 where
  not_found other : IoError

pub data KvError : Type 0 where
  io : IoError → KvError
  corruption : Message → KvError
  key_not_found : Bytes → KvError
  invalid_argument : Message → KvError
  closed : KvError
  checksum_mismatch : ℕ → ℕ → KvError
  internal : Message → KvError

-- `Result<T>`; `panic` is a panic of the program (an index out of range, an `unwrap`).
pub data Result {ℓ} (A : Type ℓ) : Type ℓ where
  ok : A → Result A
  err : KvError → Result A
  panic : Result A

infixl 5 ◌>>=◌ ◌>>◌
abbrev pub ◌>>=◌ {ℓ κ} : {A : Type ℓ} {B : Type κ} → Result A → (A → Result B) → Result B
ok a >>= f = f a
err e >>= f = err e
panic >>= f = panic

abbrev pub ◌>>◌ {ℓ} : {B : Type ℓ} → Result (Unit {0}) → Result B → Result B
m >> k = m >>= λ _. k

-- A chain panics only where one of its steps does.
pub >>=-ne-panic {ℓ κ} :
    {A : Type ℓ} {B : Type κ} (m : Result A) (f : A → Result B)
    → m ≢ panic
    → ((a : A) → f a ≢ panic)
    → (m >>= f) ≢ panic
>>=-ne-panic (ok a) f h k = k a
>>=-ne-panic (err e) f h k = λ p. cc
>>=-ne-panic panic f h k = absurd (h refl)

pub Result-cases {ℓ} :
    {A : Type ℓ} (r : Result A)
    → ((a : A) × (r ≡ ok a)) ⊎ ((e : KvError) × (r ≡ err e)) ⊎ (r ≡ panic)
Result-cases (ok a) = inl (a, refl)
Result-cases (err e) = inr (inl (e, refl))
Result-cases panic = inr (inr refl)

-- A chain that succeeds, for proofs where its parts stay shut.
pub >>=-inv {κ ℓ} :
    {B : Type κ} {A : Type ℓ} {y : B} (rest : A → Result B) (first : Result A)
    → first >>= rest ≡ ok y
    → (x : A) × (first ≡ ok x) × (rest x ≡ ok y)
>>=-inv rest first h = elim (Result-cases first) [
  | inl (x, got) ↦ (x, got, rw got at h)
  | inr (inl (e, got)) ↦ absurd (let q : err e ≡ ok _ = rw got at h in cc)
  | inr (inr got) ↦ absurd (let q : panic ≡ ok _ = rw got at h in cc)
]
