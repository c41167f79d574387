-- ===== src/Table/Listing.antt =====
-- The entries of a table in the order in which `table_get_keys` lists their keys.
use amazon_dynamo_db.Prelude.{
  ℕ, suc, ◌+◌, ◌<◌, ◌≡◌, refl, some, [], ◌∷◌, ◌++◌, All, All-append, arith, length, length-append,
  get_or,
}
use amazon_dynamo_db.Strings.{Bytes}
use amazon_dynamo_db.Strings.Order.{strcmp_self}
use amazon_dynamo_db.Assoc.{Pairs, find, IsAbove, IsSorted}
use amazon_dynamo_db.LinkedList.Keys.{keys_of}
use amazon_dynamo_db.Table.Hash.{IsKey}
use amazon_dynamo_db.Table.Buckets.{Buckets, IsTable, IsStored, view, total}
use amazon_dynamo_db.Table.Keys.Laws.{all_keys}

unfoldable pub all_pairs : Buckets → Pairs
all_pairs [] = []
all_pairs (xs ∷ bs) = xs ++ all_pairs bs

pub length-all_pairs : (bs : Buckets) → length (all_pairs bs) ≡ total bs
unfolding all_pairs total
length-all_pairs [] = refl
length-all_pairs (xs ∷ bs) = omega (arith, length-append xs (all_pairs bs), length-all_pairs bs)

keys_of-append : (xs ys : Pairs) → keys_of (xs ++ ys) ≡ keys_of xs ++ keys_of ys
keys_of-append [] ys = refl
keys_of-append (x ∷ xs) ys = ground (arith, keys_of-append xs ys)

pub keys_of-all_pairs : (bs : Buckets) → keys_of (all_pairs bs) ≡ all_keys bs
unfolding all_pairs all_keys
keys_of-all_pairs [] = refl
keys_of-all_pairs (xs ∷ bs) = ground (arith, keys_of-append xs (all_pairs bs), keys_of-all_pairs bs)

-- What a list finds under a key of one of its entries.
abbrev Finds : Pairs → Bytes × Bytes → Type 0
Finds xs e = find e.0 xs ≡ some e.1

-- An entry that is above the first key is found as it is without it.
skip-find :
    (x : Bytes × Bytes) (xs ys : Pairs)
    → IsAbove x.0 ys
    → All (Finds xs) ys
    → All (Finds (x ∷ xs)) ys
unfolding find
skip-find x xs [] a f = tt
skip-find x xs (y ∷ ys) a f = (ground (arith, a.0, f.0), skip-find x xs ys a.1 f.1)

IsSorted-find : (xs : Pairs) → IsSorted xs → All (Finds xs) xs
unfolding find
IsSorted-find [] s = tt
IsSorted-find (x ∷ xs) s =
    (ground (arith, strcmp_self x.0), skip-find x xs xs s.0 (IsSorted-find xs s.1))

-- The table holds the entry, and can hash its key.
abbrev pub IsListed : Buckets → Bytes × Bytes → Type 0
IsListed bs e = (view bs e.0 ≡ some e.1) × IsKey e.0 × (0 < length e.1)

module _ {bs : Buckets} (t : IsTable bs) where
  bucket-IsListed :
      (i : ℕ) (xs : Pairs)
      → All (Finds (get_or bs i [])) xs
      → All (IsStored (length bs) i) xs
      → All (IsListed bs) xs
  bucket-IsListed i [] f s = tt
  bucket-IsListed i (x ∷ xs) f s = ((rw s.0.1 f.0, s.0.2, s.0.0), bucket-IsListed i xs f.1 s.1)

  rest-IsListed :
      (cs : Buckets) (i : ℕ)
      → ((j : ℕ) → get_or cs j [] ≡ get_or bs (i + j) [])
      → All (IsListed bs) (all_pairs cs)
  unfolding all_pairs
  rest-IsListed [] i h = tt
  rest-IsListed (xs ∷ cs) i h =
      let here : xs ≡ get_or bs i [] = ground (arith, h 0) in
      let listed =
        bucket-IsListed i (get_or bs i []) (IsSorted-find (get_or bs i []) (t.sorted i))
          (t.stored i) in
      All-append (IsListed bs) xs (all_pairs cs) (rw here listed)
        (rest-IsListed cs (i + 1) (λ j. ground (arith, h (suc j))))

  -- Every listed entry is the one that the table has under its key.
  pub all_pairs-IsListed : All (IsListed bs) (all_pairs bs)
  all_pairs-IsListed = rest-IsListed bs 0 (λ j. ground arith)
