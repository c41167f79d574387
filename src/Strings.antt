-- ===== src/Strings.antt =====
-- C strings as the program uses them: the bytes before the terminator.
pub mod Order
use amazon_dynamo_db.Prelude.{ℕ, ◌≤◌, ◌<◌, List, [], ◌∷◌, compare, Ordering, All}

abbrev pub Bytes : Type 0
Bytes = List ℕ

-- The sign of `strcmp(a, b)`.
unfoldable pub strcmp : Bytes → Bytes → Ordering
strcmp [] [] = Ordering.eq
strcmp [] (b ∷ bs) = Ordering.lt
strcmp (a ∷ as_) [] = Ordering.gt
strcmp (a ∷ as_) (b ∷ bs) = elim (compare a b) [
  | Ordering.lt ↦ Ordering.lt
  | Ordering.eq ↦ strcmp as_ bs
  | Ordering.gt ↦ Ordering.gt
]

-- No byte of a C string is its terminator.
abbrev pub IsCString : Bytes → Type 0
IsCString = All (λ b. (0 < b) × (b < 256))
