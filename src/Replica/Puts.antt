-- ===== src/Replica/Puts.antt =====
-- A table into which the entries of another are put, one after the other.
use amazon_dynamo_db.Prelude.{
  ℕ, zero, suc, ◌+◌, ◌≤◌, ◌≡◌, refl, ap, some, [], ◌∷◌, ◌++◌, All, arith, length, get_or,
  if◌then◌else◌, Bool-cases, inl, inr, true, ◌||◌, sym, ◌∙◌,
}
use amazon_dynamo_db.Strings.{Bytes}
use amazon_dynamo_db.Assoc.{Pairs, same, has_key}
use amazon_dynamo_db.Assoc.Sorted.{same-eq}
use amazon_dynamo_db.Assoc.Finds.{is_some, has_key-find}
use amazon_dynamo_db.Table.Hash.{home}
use amazon_dynamo_db.Table.Buckets.{
  Buckets, IsTable, view, put, total, put-IsTable, view-put, total-put, bucket,
}
use amazon_dynamo_db.Table.Listing.{all_pairs, IsListed, all_pairs-IsListed}

unfoldable pub put_all : Buckets → Pairs → Buckets
put_all c [] = c
put_all c (x ∷ xs) = put_all (put c x.0 x.1) xs

module _ (bs : Buckets) where
  pub put_all-IsTable :
      (xs : Pairs) {c : Buckets} → IsTable c → All (IsListed bs) xs → IsTable (put_all c xs)
  unfolding put_all
  put_all-IsTable [] t l = t
  put_all-IsTable (x ∷ xs) t l = put_all-IsTable xs (put-IsTable t x.0 x.1 l.0.1 l.0.2) l.1

  -- Under the keys that were put stands what the other table has, under the others what there was.
  pub view-put_all :
      (xs : Pairs) {c : Buckets} (q : Bytes)
      → IsTable c
      → All (IsListed bs) xs
      → view (put_all c xs) q ≡ (if has_key q xs then view bs q else view c q)
  unfolding put_all has_key
  view-put_all [] q t l = refl
  view-put_all (x ∷ xs) {c} q t l =
      let rest = view-put_all xs q (put-IsTable t x.0 x.1 l.0.1 l.0.2) l.1 in
      let first = view-put t x.0 x.1 q in
      elim (Bool-cases (same x.0 q)) [
        | inl here ↦
            let listed : view bs q ≡ some x.1 = rw (← same-eq x.0 q here) l.0.0 in
            ground (arith, rest, first, here, listed)
        | inr other ↦ ground (arith, rest, first, other)
      ]

has_key-append : (q : Bytes) (xs ys : Pairs) → has_key q (xs ++ ys) ≡ (has_key q xs || has_key q ys)
unfolding has_key
has_key-append q [] ys = refl
has_key-append q (x ∷ xs) ys = ground (arith, has_key-append q xs ys)

has_key-all_pairs :
    (q : Bytes) (bs : Buckets) (i : ℕ)
    → has_key q (get_or bs i []) ≡ true
    → has_key q (all_pairs bs) ≡ true
unfolding all_pairs has_key
has_key-all_pairs q [] i h = h
has_key-all_pairs q (xs ∷ bs) zero h = ground (arith, has_key-append q xs (all_pairs bs), h)
has_key-all_pairs q (xs ∷ bs) (suc i) h =
    ground (arith, has_key-append q xs (all_pairs bs), has_key-all_pairs q bs i h)

has_key-listed :
    (q : Bytes) (bs : Buckets) (xs : Pairs)
    → All (IsListed bs) xs
    → has_key q xs ≡ true
    → is_some (view bs q) ≡ true
unfolding has_key
has_key-listed q bs [] l h = ground arith
has_key-listed q bs (x ∷ xs) l h = elim (Bool-cases (same x.0 q)) [
  | inl here ↦
      let listed : view bs q ≡ some x.1 = rw (← same-eq x.0 q here) l.0.0 in ap is_some listed
  | inr other ↦ has_key-listed q bs xs l.1 (ground arith)
]

-- The listing of a table has exactly its keys.
pub has_key-view :
    {bs : Buckets} (t : IsTable bs) (q : Bytes) → has_key q (all_pairs bs) ≡ is_some (view bs q)
has_key-view {bs} t q =
    let found = has_key-find q (bucket bs q) in
    elim (Bool-cases (is_some (view bs q))) [
      | inl there ↦ has_key-all_pairs q bs (home q (length bs)) (found ∙ there) ∙ sym there
      | inr gone ↦ elim (Bool-cases (has_key q (all_pairs bs))) [
        | inl listed ↦
            listed ∙ sym (has_key-listed q bs (all_pairs bs) (all_pairs-IsListed t) listed)
        | inr not_listed ↦ not_listed ∙ sym gone
      ]
    ]

pub total-put_all :
    (bs : Buckets) (xs : Pairs) {c : Buckets}
    → IsTable c
    → All (IsListed bs) xs
    → total (put_all c xs) ≤ total c + length xs
unfolding put_all
total-put_all bs [] t l = omega arith
total-put_all bs (x ∷ xs) {c} t l =
    omega (arith, total-put t x.0 x.1, total-put_all bs xs (put-IsTable t x.0 x.1 l.0.1 l.0.2) l.1)
