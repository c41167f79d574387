-- ===== src/Assoc/Position.antt =====
-- The position of a key, and writes to it.
use amazon_dynamo_db.Prelude.{
  ℕ, suc, ◌+◌, ◌≡◌, refl, Option, none, some, [], ◌∷◌, Ordering, if◌then◌else◌, arith, ◌⊎◌, inl,
  inr, Bool-cases, false, set,
}
use amazon_dynamo_db.Strings.{Bytes, strcmp}
use amazon_dynamo_db.Strings.Order.{strcmp_self, strcmp-eq}
use amazon_dynamo_db.Assoc.{Pairs, same, find, insert, IsAbove, IsSorted}
use amazon_dynamo_db.Assoc.Sorted.{same-eq, strcmp-cases, IsAbove-find}

-- The position of the first entry with this key, where the first of all has position `i`.
unfoldable pub position : ℕ → Bytes → Pairs → Option ℕ
position i k [] = none
position i k (x ∷ xs) = if same x.0 k then some i else position (i + 1) k xs

-- Either the key is nowhere, or it stands at some position, and a write there is an insertion.
abbrev pub IsAt : ℕ → Bytes → Pairs → ℕ × Bytes → Type 0
IsAt i k xs d =
    (position i k xs ≡ some (i + d.0))
    × (find k xs ≡ some d.1)
    × ((v : Bytes) → set xs d.0 (k, v) ≡ insert (k, v) xs)

abbrev pub Located : ℕ → Bytes → Pairs → Type 0
Located i k xs = ((position i k xs ≡ none) × (find k xs ≡ none)) ⊎ ((d : ℕ × Bytes) × IsAt i k xs d)

Located-skip :
    (i : ℕ) (k : Bytes) (x : Bytes × Bytes) (xs : Pairs)
    → IsAbove x.0 xs
    → same x.0 k ≡ false
    → Located (i + 1) k xs
    → Located i k (x ∷ xs)
unfolding position find insert
Located-skip i k x xs a h (inl (p, f)) = inl (ground arith, ground arith)
Located-skip i k x xs a h (inr ((d, w), (p, f, s))) =
    let above : strcmp k x.0 ≡ Ordering.gt = elim (strcmp-cases k x.0) [
      | inl lt ↦ ground (arith, IsAbove-find x.0 k xs a)
      | inr (inl eq) ↦ ground (arith, strcmp-eq k x.0, strcmp_self k)
      | inr (inr gt) ↦ gt
    ] in
    inr ((suc d, w), (ground arith, ground arith, λ v. ground (arith, s v)))

pub Located-IsSorted : (i : ℕ) (k : Bytes) (xs : Pairs) → IsSorted xs → Located i k xs
unfolding position find insert
Located-IsSorted i k [] s = inl (refl, refl)
Located-IsSorted i k (x ∷ xs) s = elim (Bool-cases (same x.0 k)) [
  | inr other ↦ Located-skip i k x xs s.0 other (Located-IsSorted (i + 1) k xs s.1)
  | inl here ↦ inr (
    (0, x.1),
    (ground arith, ground arith, λ v. ground (arith, same-eq x.0 k here, strcmp_self k)),
  )
]
