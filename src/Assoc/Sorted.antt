-- ===== src/Assoc/Sorted.antt =====
-- The operations and the order of the keys.
use amazon_dynamo_db.Prelude.{
  ◌≡◌, ◌≢◌, refl, true, false, none, [], ◌∷◌, Ordering, arith, ◌⊎◌, inl, inr,
}
use amazon_dynamo_db.Strings.{Bytes, strcmp}
use amazon_dynamo_db.Strings.Order.{strcmp_self, strcmp-eq, strcmp-gt, strcmp-lt, strcmp_trans}
use amazon_dynamo_db.Assoc.{Pairs, same, find, insert, remove, replaces, IsAbove, IsSorted}

pub same_self : (a : Bytes) → same a a ≡ true
same_self a = ground (arith, strcmp_self a)

pub same-eq : (a b : Bytes) → same a b ≡ true → a ≡ b
same-eq a b h = strcmp-eq a b (ground arith)

-- The three outcomes of a comparison.
pub strcmp-cases :
    (a b : Bytes)
    → (strcmp a b ≡ Ordering.lt) ⊎ ((strcmp a b ≡ Ordering.eq) ⊎ (strcmp a b ≡ Ordering.gt))
strcmp-cases a b = ground arith

IsAbove-trans : (j k : Bytes) (xs : Pairs) → strcmp j k ≡ Ordering.lt → IsAbove k xs → IsAbove j xs
IsAbove-trans j k [] h a = tt
IsAbove-trans j k (x ∷ xs) h a = (strcmp_trans j k x.0 h a.0, IsAbove-trans j k xs h a.1)

insert-IsAbove :
    (k : Bytes) (e : Bytes × Bytes) (xs : Pairs)
    → strcmp k e.0 ≡ Ordering.lt
    → IsAbove k xs
    → IsAbove k (insert e xs)
unfolding insert
insert-IsAbove k e [] h a = (h, tt)
insert-IsAbove k e (x ∷ xs) h a = ground (arith, insert-IsAbove k e xs h a.1)

pub insert-IsSorted : (e : Bytes × Bytes) (xs : Pairs) → IsSorted xs → IsSorted (insert e xs)
unfolding insert
insert-IsSorted e [] s = (tt, tt)
insert-IsSorted e (x ∷ xs) s = elim (strcmp-cases e.0 x.0) [
  | inl below ↦ rw (below, IsSorted) ((below, IsAbove-trans e.0 x.0 xs below s.0), s)
  | inr (inl equal) ↦ rw (equal, IsSorted) (rw (← strcmp-eq e.0 x.0 equal) at s.0, s.1)
  | inr (inr above) ↦
      rw (above, IsSorted)
        (insert-IsAbove x.0 e xs (strcmp-gt e.0 x.0 above) s.0, insert-IsSorted e xs s.1)
]

remove-IsAbove : (j k : Bytes) (xs : Pairs) → IsAbove j xs → IsAbove j (remove k xs)
unfolding remove
remove-IsAbove j k [] a = tt
remove-IsAbove j k (x ∷ xs) a = ground (arith, remove-IsAbove j k xs a.1)

pub remove-IsSorted : (k : Bytes) (xs : Pairs) → IsSorted xs → IsSorted (remove k xs)
unfolding remove
remove-IsSorted k [] s = tt
remove-IsSorted k (x ∷ xs) s = ground (arith, remove-IsSorted k xs s.1, remove-IsAbove x.0 k xs s.0)

le_of_lt :
    (q k x : Bytes) → strcmp q k ≢ Ordering.gt → strcmp k x ≡ Ordering.lt → strcmp q x ≡ Ordering.lt
le_of_lt q k x h below = elim (strcmp-cases q k) [
  | inl lt ↦ strcmp_trans q k x lt below
  | inr (inl eq) ↦ rw (← strcmp-eq q k eq) at below
  | inr (inr gt) ↦ absurd (h gt)
]

-- A key that is not above a lower bound of the keys is not found.
pub IsAbove-find :
    (k q : Bytes) (xs : Pairs)
    → IsAbove k xs
    → strcmp q k ≢ Ordering.gt
    → (find q xs ≡ none) × (replaces q xs ≡ false)
unfolding find replaces
IsAbove-find k q [] a h = (refl, refl)
IsAbove-find k q (x ∷ xs) a h =
    let lt = le_of_lt q k x.0 h a.0 in
    ground (arith, lt, strcmp-lt q x.0 lt, IsAbove-find k q xs a.1 h)
