-- ===== src/Assoc.antt =====
-- What a list of entries stands for: an association list from strings to bytes, in the order of its
-- keys. The operations of source/list.c stand against these.
pub mod Sorted
pub mod Finds
pub mod Position
pub mod Entries
use amazon_dynamo_db.Prelude.{
  ℕ, ◌≡◌, Bool, true, false, Option, none, some, List, [], ◌∷◌, Ordering, if◌then◌else◌,
}
use amazon_dynamo_db.Strings.{Bytes, strcmp}

abbrev pub Pairs : Type 0
Pairs = List (Bytes × Bytes)

abbrev pub same : Bytes → Bytes → Bool
same a b = elim (strcmp a b) [ Ordering.eq ↦ true | _ ↦ false ]

unfoldable pub find : Bytes → Pairs → Option Bytes
find k [] = none
find k (e ∷ xs) = if same e.0 k then some e.1 else find k xs

unfoldable pub insert : Bytes × Bytes → Pairs → Pairs
insert e [] = e ∷ []
insert e (x ∷ xs) = elim (strcmp e.0 x.0) [
  | Ordering.lt ↦ e ∷ x ∷ xs
  | Ordering.eq ↦ e ∷ xs
  | Ordering.gt ↦ x ∷ insert e xs
]

unfoldable pub remove : Bytes → Pairs → Pairs
remove k [] = []
remove k (x ∷ xs) = if same x.0 k then xs else x ∷ remove k xs

-- Whether `insert` replaces an entry.
unfoldable pub replaces : Bytes → Pairs → Bool
replaces k [] = false
replaces k (x ∷ xs) = elim (strcmp k x.0) [
  | Ordering.lt ↦ false
  | Ordering.eq ↦ true
  | Ordering.gt ↦ replaces k xs
]

unfoldable pub has_key : Bytes → Pairs → Bool
has_key k [] = false
has_key k (x ∷ xs) = if same x.0 k then true else has_key k xs

-- Every key is greater than `k`.
abbrev pub IsAbove : Bytes → Pairs → Type 0
IsAbove k [] = Unit
IsAbove k (x ∷ xs) = (strcmp k x.0 ≡ Ordering.lt) × IsAbove k xs

-- The keys ascend, so that none stands twice.
abbrev pub IsSorted : Pairs → Type 0
IsSorted [] = Unit
IsSorted (x ∷ xs) = IsAbove x.0 xs × IsSorted xs
