-- ===== src/Table/Destroy/Emptied.antt =====
-- The removal of every key of a table.
use amazon_dynamo_db.Prelude.{
  ℕ, zero, suc, ◌≡◌, refl, ap, ◌∙◌, none, Option-cases, List, [], ◌∷◌, ◌++◌, arith, length,
  length-set, if◌then◌else◌, All, get_or, Bool, true, false, ◌||◌, inl, inr,
}
use amazon_dynamo_db.Strings.{Bytes}
use amazon_dynamo_db.Assoc.{Pairs, same, find}
use amazon_dynamo_db.Assoc.Sorted.{same_self}
use amazon_dynamo_db.Assoc.Finds.{is_some}
use amazon_dynamo_db.LinkedList.Keys.{keys_of}
use amazon_dynamo_db.Table.Hash.{home}
use amazon_dynamo_db.Table.Buckets.{
  Buckets, IsTable, IsStored, view, del, empty, del-IsTable, view-del,
}
use amazon_dynamo_db.Table.Keys.Laws.{all_keys}

unfoldable pub dels : Buckets → List Bytes → Buckets
dels bs [] = bs
dels bs (k ∷ ks) = dels (del bs k) ks

unfoldable pub has : Bytes → List Bytes → Bool
has q [] = false
has q (k ∷ ks) = if same k q then true else has q ks

pub dels-IsTable : (ks : List Bytes) {bs : Buckets} → IsTable bs → IsTable (dels bs ks)
unfolding dels
dels-IsTable [] t = t
dels-IsTable (k ∷ ks) t = dels-IsTable ks (del-IsTable t k)

pub length-dels : (bs : Buckets) (ks : List Bytes) → length (dels bs ks) ≡ length bs
unfolding dels
length-dels bs [] = refl
length-dels bs (k ∷ ks) = length-dels (del bs k) ks ∙ length-set bs _ _

pub view-dels :
    (ks : List Bytes) (q : Bytes) {bs : Buckets}
    → IsTable bs
    → view (dels bs ks) q ≡ (if has q ks then none else view bs q)
unfolding dels has
view-dels [] q t = refl
view-dels (k ∷ ks) q t = ground (arith, view-dels ks q (del-IsTable t k), view-del t k q)

has-append : (q : Bytes) (a b : List Bytes) → has q (a ++ b) ≡ (has q a || has q b)
unfolding has
has-append q [] b = refl
has-append q (k ∷ a) b = ground (arith, has-append q a b)

has-keys_of : (q : Bytes) (xs : Pairs) → has q (keys_of xs) ≡ is_some (find q xs)
unfolding has find
has-keys_of q [] = refl
has-keys_of q (x ∷ xs) = ground (arith, has-keys_of q xs)

-- A key that is found in some list is among all the keys.
has-all_keys :
    (q : Bytes) (bs : Buckets) (i : ℕ)
    → is_some (find q (get_or bs i [])) ≡ true
    → has q (all_keys bs) ≡ true
unfolding all_keys
has-all_keys q [] i h = unfold find in cc
has-all_keys q (xs ∷ bs) zero h =
    ground (arith, has-append q (keys_of xs) (all_keys bs), has-keys_of q xs)
has-all_keys q (xs ∷ bs) (suc i) h =
    ground (arith, has-append q (keys_of xs) (all_keys bs), has-all_keys q bs i h)

-- After the removal of all its keys a table finds nothing.
view-dels-all_keys : {bs : Buckets} (q : Bytes) → IsTable bs → view (dels bs (all_keys bs)) q ≡ none
view-dels-all_keys {bs} q t = elim (Option-cases (view bs q)) [
  | inl gone ↦ ground (arith, view-dels (all_keys bs) q t)
  | inr (v, there) ↦
      ground (arith, view-dels (all_keys bs) q t, has-all_keys q bs (home q (length bs)) (rw there))
]

-- A table that finds nothing has no entries.
bucket-nil :
    {cs : Buckets} (i : ℕ) → IsTable cs → ((q : Bytes) → view cs q ≡ none) → get_or cs i [] ≡ []
bucket-nil {cs} i t h = go (get_or cs i []) refl (t.stored i)
  where
    go : (xs : Pairs) → get_or cs i [] ≡ xs → All (IsStored (length cs) i) xs → xs ≡ []
    go [] e s = refl
    go (x ∷ xs) e s =
        let at_home = ap (λ j. find x.0 (get_or cs j [])) (s.0.1) in
        let first = ap (find x.0) e in
        unfold find in ground (arith, h x.0, at_home, first, same_self x.0)

all-nil : (cs : Buckets) → ((i : ℕ) → get_or cs i [] ≡ []) → cs ≡ empty (length cs)
all-nil [] h = refl
all-nil (xs ∷ cs) h = ground (arith, h 0, all-nil cs (λ i. h (suc i)))

-- The removal of all its keys empties a table.
pub dels-all_keys : {bs : Buckets} → IsTable bs → dels bs (all_keys bs) ≡ empty (length bs)
dels-all_keys {bs} t =
    let cs = dels bs (all_keys bs) in
    all-nil cs (λ i. bucket-nil i (dels-IsTable (all_keys bs) t) (λ q. view-dels-all_keys q t))
    ∙ ap empty (length-dels bs (all_keys bs))
