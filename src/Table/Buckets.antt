-- ===== src/Table/Buckets.antt =====
-- What a table stands for: association lists, one for each list, and through them a map from keys
-- to bytes. The operations of source/table.c stand against these.
use amazon_dynamo_db.Prelude.{
  ℕ, zero, suc, ◌+◌, ◌≤◌, ◌<◌, ◌≡◌, ◌≢◌, refl, ap, pos, some, none, Option, List, [], ◌∷◌, All,
  arith, length, map, set, get_or, replicate, if◌then◌else◌, Bool-cases, inl, inr, false,
  length-set, length-replicate, get_or-set_self, get_or-set_ne, get_or-set_all,
}
use mathlib.Core.Path.{fun_ext}
use native.Mathlib.Decide.{ℕ_discrete}
use amazon_dynamo_db.Strings.{Bytes}
use amazon_dynamo_db.Assoc.{Pairs, same, find, insert, remove, IsSorted}
use amazon_dynamo_db.Assoc.Sorted.{insert-IsSorted, remove-IsSorted, same-eq}
use amazon_dynamo_db.Assoc.Finds.{
  find-insert, find-remove, to_ℕ, is_some, length-insert, length-remove, replaces-find,
  has_key-find,
}
use amazon_dynamo_db.Assoc.Entries.{All-insert, All-remove}
use amazon_dynamo_db.LinkedList.Refines.{list_of}
use amazon_dynamo_db.Table.{Table}
use amazon_dynamo_db.Table.Hash.{home, home-lt, IsKey}

abbrev pub Buckets : Type 0
Buckets = List Pairs

abbrev pub table_of : Buckets → Table
table_of bs = record { size = pos (length bs); lists = map (λ xs. some (list_of xs)) bs }

-- The list of a key.
abbrev pub bucket : Buckets → Bytes → Pairs
bucket bs k = get_or bs (home k (length bs)) []

abbrev pub view : Buckets → Bytes → Option Bytes
view bs k = find k (bucket bs k)

abbrev pub put : Buckets → Bytes → Bytes → Buckets
put bs k v = set bs (home k (length bs)) (insert (k, v) (bucket bs k))

abbrev pub del : Buckets → Bytes → Buckets
del bs k = set bs (home k (length bs)) (remove k (bucket bs k))

-- The number of entries.
unfoldable pub total : Buckets → ℕ
total [] = 0
total (xs ∷ bs) = length xs + total bs

-- The value is not empty, the key can be hashed, and the entry stands in the list of its key.
abbrev pub IsStored : ℕ → ℕ → Bytes × Bytes → Type 0
IsStored n i e = (0 < length e.1) × (home e.0 n ≡ i) × IsKey e.0

pub record IsTable (bs : Buckets) : Type 0 where
  pub some_list : 0 < length bs
  pub sorted : (i : ℕ) → IsSorted (get_or bs i [])
  pub stored : (i : ℕ) → All (IsStored (length bs) i) (get_or bs i [])

get_or-replicate : (n i : ℕ) → get_or (replicate n (let xs : Pairs = [] in xs)) i [] ≡ []
get_or-replicate zero i = refl
get_or-replicate (suc n) zero = refl
get_or-replicate (suc n) (suc i) = get_or-replicate n i

abbrev pub empty : ℕ → Buckets
empty n = replicate n []

pub empty-IsTable : (n : ℕ) → 0 < n → IsTable (empty n)
empty-IsTable n h = record {
  some_list = rw length-replicate h;
  sorted = λ i. rw (get_or-replicate n i, IsSorted) tt;
  stored = λ i. rw (get_or-replicate n i, All) tt;
}

same-home : (k q : Bytes) (n : ℕ) → home k n ≢ home q n → same k q ≡ false
same-home k q n ne = elim (Bool-cases (same k q)) [
  | inl eq ↦ absurd (ne (ap (λ x. home x n) (same-eq k q eq)))
  | inr apart ↦ apart
]

module _ {bs : Buckets} (t : IsTable bs) (k : Bytes) where
  pub home-lt-length : home k (length bs) < length bs
  home-lt-length = home-lt k (length bs) t.some_list

  -- A change of the list of `k` to one that is sorted and stored there.
  set-IsTable :
      (xs : Pairs)
      → IsSorted xs
      → All (IsStored (length bs) (home k (length bs))) xs
      → IsTable (set bs (home k (length bs)) xs)
  set-IsTable xs s p = record {
    some_list = rw length-set t.some_list;
    sorted = get_or-set_all (λ i ys. IsSorted ys) [] bs (home k (length bs)) xs s t.sorted;
    stored = rw (length-set bs (home k (length bs)) xs) (
        get_or-set_all (λ i ys. All (IsStored (length bs) i) ys) [] bs (home k (length bs)) xs p
          t.stored);
  }

  pub put-IsTable : (v : Bytes) → IsKey k → 0 < length v → IsTable (put bs k v)
  put-IsTable v key h =
      let i = home k (length bs) in
      set-IsTable _ (insert-IsSorted (k, v) (bucket bs k) (t.sorted i))
        (All-insert (IsStored (length bs) i) (k, v) (bucket bs k) (h, refl, key) (t.stored i))

  pub del-IsTable : IsTable (del bs k)
  del-IsTable =
      let i = home k (length bs) in
      set-IsTable _ (remove-IsSorted k (bucket bs k) (t.sorted i))
        (All-remove (IsStored (length bs) i) k (bucket bs k) (t.stored i))

  bucket-set_self :
      (xs : Pairs) → get_or (set bs (home k (length bs)) xs) (home k (length bs)) [] ≡ xs
  bucket-set_self xs = get_or-set_self bs (home k (length bs)) xs [] home-lt-length

  -- A write to the list of `k` that changes what is found of `k` only.
  view-set :
      (xs : Pairs) (q : Bytes) (r : Option Bytes)
      → find q xs ≡ (if same k q then r else find q (bucket bs k))
      → view (set bs (home k (length bs)) xs) q ≡ (if same k q then r else view bs q)
  view-set xs q r h =
      rw (length-set bs (home k (length bs)) xs)
        (elim (ℕ_discrete (home k (length bs)) (home q (length bs))) [
          | yes eq ↦
              let here = bucket-set_self xs in
              ground (
                arith,
                ap (λ i. find q (get_or (set bs (home k (length bs)) xs) i [])) eq,
                ap (λ i. find q (get_or bs i [])) eq,
                ap (find q) here,
              )
          | no ne ↦ ground (
            arith,
            ap (find q) (get_or-set_ne bs (home k (length bs)) (home q (length bs)) xs [] ne),
            same-home k q (length bs) ne,
          )
        ])

  -- A put is seen under its key, and under no other.
  pub view-put : (v q : Bytes) → view (put bs k v) q ≡ (if same k q then some v else view bs q)
  view-put v q = view-set _ q (some v) (find-insert (k, v) q (bucket bs k))

  -- After a removal the key is not found, and every other key as before.
  pub view-del : (q : Bytes) → view (del bs k) q ≡ (if same k q then none else view bs q)
  view-del q = view-set _ q none (find-remove k q (bucket bs k) (t.sorted (home k (length bs))))

pub total-empty : (n : ℕ) → total (empty n) ≡ 0
unfolding total
total-empty zero = refl
total-empty (suc n) = omega (arith, total-empty n)

total-set :
    (bs : Buckets) (i : ℕ) (xs : Pairs)
    → i < length bs
    → total (set bs i xs) + length (get_or bs i []) ≡ total bs + length xs
unfolding total
total-set [] i xs h = absurd (omega arith)
total-set (ys ∷ bs) zero xs h = omega arith
total-set (ys ∷ bs) (suc i) xs h = omega (arith, total-set bs i xs (omega arith))

pub length-get_or-le : (bs : Buckets) (i : ℕ) → length (get_or bs i []) ≤ total bs
unfolding total
length-get_or-le [] i = omega arith
length-get_or-le (xs ∷ bs) zero = omega arith
length-get_or-le (xs ∷ bs) (suc i) = omega (arith, length-get_or-le bs i)

module _ {bs : Buckets} (t : IsTable bs) (k : Bytes) where
  -- A put counts one more entry, unless it replaces one.
  pub total-put : (v : Bytes) → total (put bs k v) + to_ℕ (is_some (view bs k)) ≡ total bs + 1
  total-put v =
      let i = home k (length bs) in
      let xs = bucket bs k in
      let write = total-set bs i (insert (k, v) xs) (home-lt-length t k) in
      let longer = length-insert (k, v) xs in rw (← replaces-find k xs (t.sorted i)) (omega arith)

  -- A removal counts one entry less, if there was one.
  pub total-del : total (del bs k) + to_ℕ (is_some (view bs k)) ≡ total bs
  total-del =
      let i = home k (length bs) in
      let xs = bucket bs k in
      let write = total-set bs i (remove k xs) (home-lt-length t k) in
      let shorter = length-remove k xs in rw (← has_key-find k xs) (omega arith)

pub view-empty : (n : ℕ) → view (empty n) ≡ (λ q. none)
unfolding find
view-empty n = fun_ext (λ q. rw (get_or-replicate n (home q (length (empty n)))))

pub length-empty : (n : ℕ) → length (empty n) ≡ n
length-empty n = length-replicate n (let xs : Pairs = [] in xs)
