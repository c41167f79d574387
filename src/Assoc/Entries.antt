-- ===== src/Assoc/Entries.antt =====
-- Properties of all the entries of an association list.
use amazon_dynamo_db.Prelude.{◌≡◌, some, [], ◌∷◌, arith, inl, inr, Bool-cases, All}
use amazon_dynamo_db.Strings.{Bytes}
use amazon_dynamo_db.Strings.Order.{strcmp-eq}
use amazon_dynamo_db.Assoc.{Pairs, same, find, insert, remove}
use amazon_dynamo_db.Assoc.Sorted.{strcmp-cases}

module _ (P : Bytes × Bytes → Type 0) where
  pub All-insert : (e : Bytes × Bytes) (xs : Pairs) → P e → All P xs → All P (insert e xs)
  unfolding insert
  All-insert e [] p h = (p, tt)
  All-insert e (x ∷ xs) p h = elim (strcmp-cases e.0 x.0) [
    | inl lt ↦ rw (lt, All) (p, h)
    | inr (inl eq) ↦ rw (eq, All) (p, h.1)
    | inr (inr gt) ↦ rw (gt, All) (h.0, All-insert e xs p h.1)
  ]

  pub All-remove : (k : Bytes) (xs : Pairs) → All P xs → All P (remove k xs)
  unfolding remove
  All-remove k [] h = tt
  All-remove k (x ∷ xs) h = elim (Bool-cases (same x.0 k)) [
    | inl here ↦ rw (here, All) h.1
    | inr other ↦ rw (other, All) (h.0, All-remove k xs h.1)
  ]

  -- What is found is an entry.
  pub All-find : (k v : Bytes) (xs : Pairs) → All P xs → find k xs ≡ some v → P (k, v)
  unfolding find
  All-find k v [] h e = ground arith
  All-find k v (x ∷ xs) h e = elim (Bool-cases (same x.0 k)) [
    | inl here ↦
        let key : x.0 ≡ k = strcmp-eq x.0 k (ground arith) in
        let value : x.1 ≡ v = ground arith in rw (← key, ← value) h.0
    | inr other ↦ All-find k v xs h.1 (ground arith)
  ]
