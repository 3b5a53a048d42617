-- ===== src/SortedMap.antt =====
-- The ordered map of byte strings that the components promise: a list of entries in key order. It
-- is also what the code uses of `BTreeMap<Vec<u8>, Vec<u8>>`.
pub mod Laws
use rust_kvdb.Prelude.{
  not, ◌&&◌, if◌then◌else◌, Bool, true, false, Option, none, some, List, [], ◌∷◌, Ordering, All,
  ◌≡◌,
}
use rust_kvdb.Bytes.{Bytes}
use rust_kvdb.Bytes.Order.{compare_bytes, bytes_eq, bytes_lt}

abbrev pub Entries : Type 0
Entries = List (Bytes × Bytes)

unfoldable pub lookup : Bytes → Entries → Option Bytes
lookup k [] = none
lookup k ((j, v) ∷ m) = if bytes_eq j k then some v else lookup k m

unfoldable pub insert : Bytes → Bytes → Entries → Entries
insert k v [] = (k, v) ∷ []
insert k v ((j, w) ∷ m) = elim (compare_bytes j k) [
  | Ordering.lt ↦ (j, w) ∷ insert k v m
  | Ordering.eq ↦ (j, v) ∷ m
  | Ordering.gt ↦ (k, v) ∷ (j, w) ∷ m
]

-- Each key is below all that follow it.
abbrev pub IsSorted : Entries → Type 0
IsSorted [] = Unit
IsSorted (e ∷ m) = All (λ f. compare_bytes e.0 f.0 ≡ Ordering.lt) m × IsSorted m

-- The entries whose keys are in `[start, end)`.
unfoldable pub range : Bytes → Bytes → Entries → Entries
unfolding compare_bytes
range start end [] = []
range start end (e ∷ m) =
    let rest = range start end m in
    if not (bytes_lt e.0 start) && bytes_lt e.0 end then e ∷ rest else rest
