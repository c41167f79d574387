-- ===== src/Table/Refines.antt =====
-- The operations of source/table.c on the table that stands for association lists, when every
-- request for memory is granted.
use amazon_dynamo_db.Prelude.{
  ℕ, suc, ◌+◌, ◌<◌, ◌≡◌, pos, some, none, [], ◌∷◌, arith, int_limit, length, set, if◌then◌else◌,
  inl, inr, length-set, get_elem?-map, set-map, ◌%◌,
}
use amazon_dynamo_db.Memory.{ok, fault, out_of_bounds, Memory, index}
use amazon_dynamo_db.Memory.Spend.{IsAmple, spend, int_add-pos}
use amazon_dynamo_db.Strings.{Bytes}
use amazon_dynamo_db.Block.Laws.{block_of, block_duplicate-copy}
use amazon_dynamo_db.Assoc.{Pairs, remove}
use amazon_dynamo_db.Assoc.Position.{Located-IsSorted}
use amazon_dynamo_db.Assoc.Finds.{is_some, has_key-find}
use amazon_dynamo_db.Assoc.Entries.{All-find}
use amazon_dynamo_db.LinkedList.{list_size}
use amazon_dynamo_db.LinkedList.Refines.{list_of, list_get-find, list_remove-remove}
use amazon_dynamo_db.Table.{
  store_list, table_get, table_remove, table_size, size_loop, hash_function,
}
use amazon_dynamo_db.Table.Hash.{
  home, home-lt, IsKey, IsHigh, deficit, hash_function-home, hash_function-deficit,
}
use amazon_dynamo_db.Table.Buckets.{Buckets, table_of, bucket, view, del, total, IsStored, IsTable}

module _ {bs : Buckets} (t : IsTable bs) (k : Bytes) (key : IsKey k) where
  pub table-hash :
      (m : Memory) → hash_function (some k) (table_of bs).size m ≡ ok (pos (home k (length bs)), m)
  table-hash m = go bs t.some_list
    where
      go :
          (cs : Buckets)
          → 0 < length cs
          → hash_function (some k) (table_of cs).size m ≡ ok (pos (home k (length cs)), m)
      go [] h = absurd (omega arith)
      go (c ∷ cs) h = hash_function-home k (length cs) m key

  pub table-index :
      (m : Memory)
      → index (table_of bs).lists (pos (home k (length bs))) m
        ≡ ok (some (list_of (bucket bs k)), m)
  unfolding index
  table-index m = ground (
    arith,
    get_elem?-map (λ (xs : Pairs). some (list_of xs)) bs (home k (length bs)) []
        (home-lt k (length bs) t.some_list),
  )

  pub store_list-table_of :
      (xs : Pairs)
      → store_list (table_of bs) (pos (home k (length bs))) (some (list_of xs))
        ≡ table_of (set bs (home k (length bs)) xs)
  unfolding store_list
  store_list-table_of xs = ground (
    arith,
    set-map (λ (ys : Pairs). some (list_of ys)) bs (home k (length bs)) xs,
    length-set bs (home k (length bs)) xs,
  )

  pub found-value : (v : Bytes) → view bs k ≡ some v → 0 < length v
  found-value v e =
      (All-find (IsStored (length bs) (home k (length bs))) k v (bucket bs k)
        (t.stored (home k (length bs))) e).0

  -- table_get on a valid table returns a copy of what is stored under a hashable key, and NULL when
  -- nothing is, when malloc grants every request.
  pub table_get-view :
      {m : Memory}
      → IsAmple m
      → table_get (some (table_of bs)) (some k) m
        ≡ (elim (view bs k) [ none ↦ ok (none, m) | some v ↦ ok (some (block_of v), spend 2 0 m) ])
  unfolding table_get
  table_get-view {m} ample =
      let read = list_get-find k (bucket bs k) m in
      elim (Located-IsSorted 0 k (bucket bs k) (t.sorted (home k (length bs)))) [
        | inl (p, f) ↦ ground (arith, table-hash m, table-index m, read, p, f)
        | inr ((d, w), (p, f, s)) ↦ ground (
          arith,
          table-hash m,
          table-index m,
          read,
          p,
          f,
          block_duplicate-copy ample w (found-value w f),
        )
      ]

  -- table_remove on a valid table takes out the entry of a hashable key and returns 0 after freeing
  -- its five blocks, or returns 1, whatever malloc does, when the length of the list fits an int.
  pub table_remove-del :
      (m : Memory)
      → length (bucket bs k) < int_limit
      → table_remove (some (table_of bs)) (some k) m
        ≡ ok (
          ((if is_some (view bs k) then pos 0 else pos 1), some (table_of (del bs k))),
          spend 0 (if is_some (view bs k) then 5 else 0) m,
        )
  unfolding table_remove
  table_remove-del m h = ground (
    arith,
    table-hash m,
    table-index m,
    list_remove-remove k (bucket bs k) m h,
    has_key-find k (bucket bs k),
    store_list-table_of (remove k (bucket bs k)),
  )

size_loop-total :
    (bs : Buckets) (s : ℕ) (m : Memory)
    → s + total bs < int_limit
    → size_loop (length bs) (table_of bs).lists (pos s) m ≡ ok (pos (s + total bs), m)
unfolding size_loop total list_size
size_loop-total [] s m h = ground arith
size_loop-total (xs ∷ bs) s m h =
    ground (arith, int_add-pos m s (length xs), size_loop-total bs (s + length xs) m)

-- table_size is the number of entries of all lists, while that is an int.
pub table_size-total :
    (bs : Buckets) (m : Memory)
    → total bs < int_limit
    → table_size (some (table_of bs)) m ≡ ok (pos (total bs), m)
unfolding table_size
table_size-total bs m h = ground (arith, size_loop-total bs 0 m)

-- A key of bytes that all are outside ASCII, whose signed sum is an int and not a multiple of the
-- number of lists, makes table_get and table_remove read in front of the array of lists.
pub table_get-high :
    (c : Pairs) (cs : Buckets) (k : Bytes) (m : Memory)
    → IsHigh k
    → deficit k < int_limit
    → 0 < deficit k % suc (length cs)
    → (table_get (some (table_of (c ∷ cs))) (some k) m ≡ fault out_of_bounds)
      × (table_remove (some (table_of (c ∷ cs))) (some k) m ≡ fault out_of_bounds)
unfolding table_get table_remove index
table_get-high c cs k m high fits outside =
    let hashed = hash_function-deficit k (length cs) m high fits in
    (ground (arith, hashed), ground (arith, hashed))
