-- ===== src/Table/Destroy/Laws.antt =====
-- `table_destroy` when every request for memory is granted.
use amazon_dynamo_db.Prelude.{
  ℕ, zero, suc, ◌+◌, ◌*◌, ◌<◌, ◌≡◌, ap, pos, minus_one, ℤ, some, List, [], ◌∷◌, arith, int_limit,
  length, length-replicate, All-append, if◌then◌else◌, All, get_or,
}
use amazon_dynamo_db.Memory.{ok, Memory}
use amazon_dynamo_db.Memory.Spend.{IsAmple, spend, free-spend}
use amazon_dynamo_db.Strings.{Bytes}
use amazon_dynamo_db.Assoc.{Pairs}
use amazon_dynamo_db.Assoc.Finds.{is_some}
use amazon_dynamo_db.LinkedList.Keys.{keys_of, list_destroy-nil}
use amazon_dynamo_db.Table.Hash.{home, IsKey}
use amazon_dynamo_db.Table.Buckets.{
  Buckets, IsTable, IsStored, table_of, view, del, bucket, total, empty, del-IsTable, total-del,
  total-empty, length-get_or-le,
}
use amazon_dynamo_db.Table.Refines.{table_remove-del}
use amazon_dynamo_db.Table.Keys.Laws.{
  all_keys, all_scratch, table_get_keys-all_keys, table_free_keys-spend, length-all_keys,
}
use amazon_dynamo_db.Table.Destroy.{
  remove_all, destroy_lists, destroy_emptied, destroy_with_keys, table_destroy,
}
use amazon_dynamo_db.Table.Destroy.Emptied.{dels, dels-all_keys}

-- The removals give back five blocks for each entry that goes; the code is that of the last.
remove_all-dels :
    (ks : List Bytes) {bs : Buckets} (code : ℤ) (m : Memory)
    → IsTable bs
    → All IsKey ks
    → total bs < int_limit
    → (c : ℤ) × (f : ℕ) × (remove_all (some (table_of bs)) ks code m
        ≡ ok ((c, some (table_of (dels bs ks))), spend 0 f m))
      × (f + 5 * total (dels bs ks) ≡ 5 * total bs)
unfolding remove_all dels
remove_all-dels [] code m t all h = (code, 0, ground arith, omega arith)
remove_all-dels (k ∷ ks) {bs} code m t all h =
    let here : ℕ = if is_some (view bs k) then 5 else 0 in
    let code' : ℤ = if is_some (view bs k) then pos 0 else pos 1 in
    let fewer = total-del t k in
    let small : length (bucket bs k) < int_limit =
      omega (arith, length-get_or-le bs (home k (length bs))) in
    let first = table_remove-del t k all.0 m small in
    let (c, f, run, freed) =
      remove_all-dels ks {bs = del bs k} code' (spend 0 here m) (del-IsTable t k) all.1
        (ground (arith, fewer)) in
    (c, here + f, ground (arith, first, run), ground (arith, fewer, freed))

destroy_lists-empty :
    (n : ℕ) (m : Memory)
    → destroy_lists n (table_of (empty n)).lists minus_one m ≡ ok (minus_one, spend 0 n m)
unfolding destroy_lists
destroy_lists-empty zero m = ground arith
destroy_lists-empty (suc n) m =
    ground (arith, list_destroy-nil m, destroy_lists-empty n (spend 0 1 m))

-- The error code of the first empty list stays.
destroy_lists-some :
    (n : ℕ) (code : ℤ) (m : Memory)
    → 0 < n
    → destroy_lists n (table_of (empty n)).lists code m ≡ ok (minus_one, spend 0 n m)
unfolding destroy_lists
destroy_lists-some zero code m h = absurd (omega arith)
destroy_lists-some (suc n) code m h =
    ground (arith, list_destroy-nil m, destroy_lists-empty n (spend 0 1 m))

IsKey-keys_of : (n i : ℕ) (xs : Pairs) → All (IsStored n i) xs → All IsKey (keys_of xs)
IsKey-keys_of n i [] s = tt
IsKey-keys_of n i (x ∷ xs) s = (s.0.2, IsKey-keys_of n i xs s.1)

IsKey-all_keys :
    (n : ℕ) (bs : Buckets)
    → ((i : ℕ) → (j : ℕ) × All (IsStored n j) (get_or bs i []))
    → All IsKey (all_keys bs)
unfolding all_keys
IsKey-all_keys n [] s = tt
IsKey-all_keys n (xs ∷ bs) s =
    All-append IsKey (keys_of xs) (all_keys bs) (IsKey-keys_of n (s 0).0 xs (s 0).1)
      (IsKey-all_keys n bs (λ i. s (suc i)))

-- The blocks that a table holds: its own two, one for each list and five for each entry.
abbrev pub blocks : Buckets → ℕ
blocks bs = length bs + 2 + 5 * total bs

-- table_destroy on a valid table frees every block of the table and every block that it takes
-- itself, and always returns the error code -1, when malloc grants every request and one more than
-- the entries fits an int.
pub table_destroy-blocks :
    {bs : Buckets} {m : Memory}
    → IsTable bs
    → IsAmple m
    → total bs + 1 < int_limit
    → (a : ℕ) × (table_destroy (some (table_of bs)) m ≡ ok (minus_one, spend a (a + blocks bs) m))
unfolding table_destroy destroy_with_keys destroy_emptied
table_destroy-blocks {bs} {m} t ample h =
    let n = length bs in
    let a = all_scratch bs + total bs + 1 in
    let keyed = IsKey-all_keys n bs (λ i. (i, t.stored i)) in
    let m₁ = spend a (all_scratch bs) m in
    let (c, f, run, freed) = remove_all-dels (all_keys bs) (pos 0) m₁ t keyed (omega arith) in
    let m₂ = spend a (all_scratch bs + f) m in
    let m₃ = spend a (all_scratch bs + f + n) m in
    let emptied = dels-all_keys t in
    let none_left = total-empty n in
    let lists = destroy_lists-some n c m₂ t.some_list in
    (
      a,
      ground (
        arith,
        table_get_keys-all_keys bs ample h,
        run,
        emptied,
        lists,
        free-spend m₃,
        free-spend (spend a (all_scratch bs + f + n + 1) m),
        table_free_keys-spend (all_keys bs) (spend a (all_scratch bs + f + n + 2) m),
        length-all_keys bs,
        freed,
        none_left,
        ap total emptied,
        length-replicate n (let xs : Pairs = [] in xs),
      ),
    )
