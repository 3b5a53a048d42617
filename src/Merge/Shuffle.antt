-- ===== src/Merge/Shuffle.antt =====
-- Two lists with the same elements, as often, in any order.
use rust_kvdb.Prelude.{List, [], ◌∷◌, ◌++◌, map, length, All, ◌≡◌, refl, arith}

pub data Shuffled {ℓ} {A : Type ℓ} : List A → List A → Type ℓ where
  none_ : Shuffled [] []
  keep : (a : A) (l l' : List A) → Shuffled l l' → Shuffled (a ∷ l) (a ∷ l')
  swap : (a b : A) (l : List A) → Shuffled (a ∷ b ∷ l) (b ∷ a ∷ l)
  then_ : (l l' l'' : List A) → Shuffled l l' → Shuffled l' l'' → Shuffled l l''

pub All-Shuffled {ℓ} :
    {A : Type ℓ} (P : A → Type 0) (l l' : List A) → Shuffled l l' → All P l → All P l'
All-Shuffled P _ _ none_ a = tt
All-Shuffled P _ _ (keep x l l' p) (h, a) = (h, All-Shuffled P l l' p a)
All-Shuffled P _ _ (swap x y l) (h, (k, a)) = (k, (h, a))
All-Shuffled P _ _ (then_ l l' l'' p q) a = All-Shuffled P l' l'' q (All-Shuffled P l l' p a)

pub Shuffled-refl {ℓ} : {A : Type ℓ} (l : List A) → Shuffled l l
Shuffled-refl [] = none_
Shuffled-refl (x ∷ l) = keep x l l (Shuffled-refl l)

pub Shuffled-middle {ℓ} :
    {A : Type ℓ} (x : A) (l r : List A) → Shuffled (l ++ (x ∷ r)) (x ∷ (l ++ r))
Shuffled-middle x [] r = Shuffled-refl (x ∷ r)
Shuffled-middle x (y ∷ l) r =
    then_ (y ∷ (l ++ (x ∷ r))) (y ∷ x ∷ (l ++ r)) (x ∷ y ∷ (l ++ r))
      (keep y (l ++ (x ∷ r)) (x ∷ (l ++ r)) (Shuffled-middle x l r)) (swap y x (l ++ r))

pub Shuffled-sym {ℓ} : {A : Type ℓ} (l l' : List A) → Shuffled l l' → Shuffled l' l
Shuffled-sym _ _ none_ = none_
Shuffled-sym _ _ (keep x l l' p) = keep x l' l (Shuffled-sym l l' p)
Shuffled-sym _ _ (swap x y l) = swap y x l
Shuffled-sym _ _ (then_ l l' l'' p q) = then_ l'' l' l (Shuffled-sym l' l'' q) (Shuffled-sym l l' p)

pub Shuffled-left {ℓ} :
    {A : Type ℓ} (front l l' : List A) → Shuffled l l' → Shuffled (front ++ l) (front ++ l')
Shuffled-left [] l l' p = p
Shuffled-left (x ∷ front) l l' p = keep x (front ++ l) (front ++ l') (Shuffled-left front l l' p)

pub Shuffled-map {ℓ κ} :
    {A : Type ℓ} {B : Type κ} (f : A → B) (l l' : List A) (back : List B)
    → Shuffled l l'
    → Shuffled (map f l ++ back) (map f l' ++ back)
Shuffled-map f _ _ back none_ = Shuffled-refl back
Shuffled-map f _ _ back (keep x l l' p) =
    keep (f x) (map f l ++ back) (map f l' ++ back) (Shuffled-map f l l' back p)
Shuffled-map f _ _ back (swap x y l) = swap (f x) (f y) (map f l ++ back)
Shuffled-map f _ _ back (then_ l l' l'' p q) =
    then_ (map f l ++ back) (map f l' ++ back) (map f l'' ++ back) (Shuffled-map f l l' back p)
      (Shuffled-map f l' l'' back q)

pub length-Shuffled {ℓ} : {A : Type ℓ} (l l' : List A) → Shuffled l l' → length l ≡ length l'
length-Shuffled _ _ none_ = refl
length-Shuffled _ _ (keep x l l' p) = omega (arith, length-Shuffled l l' p)
length-Shuffled _ _ (swap x y l) = refl
length-Shuffled _ _ (then_ l l' l'' p q) =
    omega (arith, length-Shuffled l l' p, length-Shuffled l' l'' q)
