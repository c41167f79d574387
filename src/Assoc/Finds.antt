-- ===== src/Assoc/Finds.antt =====
-- What the operations do to `find` and to the length.
use amazon_dynamo_db.Prelude.{
  ℕ, ◌+◌, ◌≡◌, refl, Bool, true, false, Option, none, some, [], ◌∷◌, if◌then◌else◌, arith, length,
}
use amazon_dynamo_db.Strings.{Bytes}
use amazon_dynamo_db.Strings.Order.{strcmp_self, strcmp-eq, strcmp-gt, strcmp-lt}
use amazon_dynamo_db.Assoc.{Pairs, same, find, insert, remove, replaces, has_key, IsSorted}
use amazon_dynamo_db.Assoc.Sorted.{IsAbove-find}

abbrev pub is_some {ℓ} : {A : Type ℓ} → Option A → Bool
is_some none = false
is_some (some _) = true

abbrev pub to_ℕ : Bool → ℕ
to_ℕ true = 1
to_ℕ false = 0

pub same_symm : (a b : Bytes) → same a b ≡ same b a
same_symm a b = ground (arith, strcmp-eq a b, strcmp-eq b a, strcmp_self a, strcmp_self b)

pub find-insert :
    (e : Bytes × Bytes) (q : Bytes) (xs : Pairs)
    → find q (insert e xs) ≡ (if same e.0 q then some e.1 else find q xs)
unfolding find insert
find-insert e q [] = refl
find-insert e q (x ∷ xs) =
    ground (
      arith,
      find-insert e q xs,
      strcmp-eq e.0 x.0,
      strcmp-eq e.0 q,
      strcmp-eq x.0 q,
      strcmp_self q,
    )

pub find-remove :
    (k q : Bytes) (xs : Pairs)
    → IsSorted xs
    → find q (remove k xs) ≡ (if same k q then none else find q xs)
unfolding find remove
find-remove k q [] s = ground arith
find-remove k q (x ∷ xs) s = ground (
  arith,
  find-remove k q xs s.1,
  strcmp-eq x.0 k,
  strcmp-eq k q,
  strcmp-eq x.0 q,
  strcmp_self q,
  strcmp_self k,
  IsAbove-find x.0 q xs s.0,
)

pub has_key-find : (k : Bytes) (xs : Pairs) → has_key k xs ≡ is_some (find k xs)
unfolding find has_key
has_key-find k [] = refl
has_key-find k (x ∷ xs) = ground (arith, has_key-find k xs)

pub replaces-find : (k : Bytes) (xs : Pairs) → IsSorted xs → replaces k xs ≡ is_some (find k xs)
unfolding find replaces
replaces-find k [] s = refl
replaces-find k (x ∷ xs) s = ground (
  arith,
  replaces-find k xs s.1,
  IsAbove-find x.0 k xs s.0,
  strcmp-lt k x.0,
  strcmp-gt k x.0,
  strcmp-eq k x.0,
  strcmp_self k,
)

pub length-insert :
    (e : Bytes × Bytes) (xs : Pairs) → length (insert e xs) + to_ℕ (replaces e.0 xs) ≡ length xs + 1
unfolding insert replaces
length-insert e [] = refl
length-insert e (x ∷ xs) = ground (arith, length-insert e xs)

pub length-remove :
    (k : Bytes) (xs : Pairs) → length (remove k xs) + to_ℕ (has_key k xs) ≡ length xs
unfolding remove has_key
length-remove k [] = refl
length-remove k (x ∷ xs) = ground (arith, length-remove k xs)
