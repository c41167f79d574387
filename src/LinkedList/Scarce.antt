-- ===== src/LinkedList/Scarce.antt =====
-- `list_get_keys` under an allocator that may refuse any request.
use amazon_dynamo_db.Prelude.{
  ◌<◌, int_limit, ℕ, suc, ◌+◌, ◌≡◌, ◌⊎◌, inl, inr, pos, some, none, Option, List, [], ◌∷◌, arith,
  length, map, Bool-cases,
}
use amazon_dynamo_db.Memory.{ok, Memory, Run}
use amazon_dynamo_db.Memory.Spend.{
  spend, refuse, int_add-pos, malloc-granted, malloc-refused, free_first-spend, free-spend,
}
use amazon_dynamo_db.Strings.{Bytes}
use amazon_dynamo_db.Entry.Laws.{entry_of}
use amazon_dynamo_db.Assoc.{Pairs}
use amazon_dynamo_db.LinkedList.{
  list_get_keys, get_keys, copy_all_keys, copy_keys, release_keys, keys_bytes,
}
use amazon_dynamo_db.LinkedList.Refines.{list_of}
use amazon_dynamo_db.LinkedList.Keys.{keys_of}

-- The run gives these keys and keeps `kept` blocks more than before, or it gives NULL and frees all
-- that it was granted, and `held` blocks that it was given.
abbrev pub AllOrNothing : List Bytes → ℕ → ℕ → Memory → Run (Option (List Bytes) × Memory) → Type 0
AllOrNothing ks kept held m run =
    (m' : Memory) × (((run ≡ ok (some ks, m'))
        × (m'.allocated + m.freed ≡ m.allocated + m'.freed + kept))
      ⊎ ((run ≡ ok (none, m')) × (m'.allocated + m.freed + held ≡ m.allocated + m'.freed)))

copy_keys-AllOrNothing :
    (xs : Pairs) (i : ℕ) (m : Memory)
    → AllOrNothing (keys_of xs) (length xs) (i + 1) m (copy_keys (length xs) (map entry_of xs) i m)
unfolding copy_keys release_keys
copy_keys-AllOrNothing [] i m = (m, inl (ground arith, omega arith))
copy_keys-AllOrNothing (x ∷ xs) i m = elim (Bool-cases (m.grants m.calls (length x.0 + 1))) [
  | inl granted ↦
      let m₁ = spend 1 0 m in
      let (m', out) = copy_keys-AllOrNothing xs (i + 1) m₁ in
      (
        m',
        elim out [
          | inl (run, count) ↦
              inl (
                ground (arith, malloc-granted (length x.0 + 1) m granted, run),
                omega (arith, count),
              )
          | inr (run, count) ↦
              inr (
                ground (arith, malloc-granted (length x.0 + 1) m granted, run),
                omega (arith, count),
              )
        ],
      )
  | inr refused ↦
      let m₁ = refuse m in
      (
        spend 0 (i + 1) m₁,
        inr (
          ground (
            arith,
            malloc-refused (length x.0 + 1) m refused,
            free_first-spend i m₁,
            free-spend (spend 0 i m₁),
          ),
          omega arith,
        ),
      )
]

-- Whatever requests the allocator refuses, list_get_keys of a list with entries copies all its keys
-- and keeps a block for each and one for the array, or gives NULL and keeps no block, when one more
-- than the entries fits an int.
pub list_get_keys-AllOrNothing :
    (x : Bytes × Bytes) (xs : Pairs) (m : Memory)
    → length xs + 2 < int_limit
    → AllOrNothing
        (keys_of (x ∷ xs))
        (length xs + 2)
        0
        m
        (list_get_keys (some (list_of (x ∷ xs))) m)
unfolding list_get_keys get_keys copy_all_keys
list_get_keys-AllOrNothing x xs m h =
    let sum = int_add-pos m (suc (length xs)) 1 (omega arith) in
    elim (Bool-cases (m.grants m.calls (keys_bytes (pos (suc (length xs) + 1))))) [
      | inl granted ↦
          let m₁ = spend 1 0 m in
          let (m', out) = copy_keys-AllOrNothing (x ∷ xs) 0 m₁ in
          (
            m',
            elim out [
              | inl (run, count) ↦ inl (
                ground (
                  arith,
                  sum,
                  malloc-granted (keys_bytes (pos (suc (length xs) + 1))) m granted,
                  run,
                ),
                omega (arith, count),
              )
              | inr (run, count) ↦ inr (
                ground (
                  arith,
                  sum,
                  malloc-granted (keys_bytes (pos (suc (length xs) + 1))) m granted,
                  run,
                ),
                omega (arith, count),
              )
            ],
          )
      | inr refused ↦ (
        refuse m,
        inr (
          ground (arith, sum, malloc-refused (keys_bytes (pos (suc (length xs) + 1))) m refused),
          omega arith,
        ),
      )
    ]
