-- ===== src/Skeleton/Entries/Laws.antt =====
-- The loop of `msgGetTable`, when every request for memory is granted.
use amazon_dynamo_db.Prelude.{
  ℕ, ◌+◌, ◌*◌, ◌≡◌, some, Option, List, [], ◌∷◌, All, arith, length, map,
}
use amazon_dynamo_db.Memory.{ok, Memory, M}
use amazon_dynamo_db.Memory.Spend.{IsAmple, IsAmple-spend, spend, malloc-IsAmple, memcpy-all}
use amazon_dynamo_db.Strings.{Bytes}
use amazon_dynamo_db.Block.Laws.{block_of, block_destroy-spend}
use amazon_dynamo_db.Assoc.{Pairs}
use amazon_dynamo_db.LinkedList.Keys.{keys_of}
use amazon_dynamo_db.Table.Buckets.{Buckets, IsTable, table_of, total}
use amazon_dynamo_db.Table.Refines.{table_get-view}
use amazon_dynamo_db.Table.Keys.Laws.{all_keys}
use amazon_dynamo_db.Table.Listing.{
  all_pairs, length-all_pairs, keys_of-all_pairs, IsListed, all_pairs-IsListed,
}
use amazon_dynamo_db.Messages.{EntryT}
use amazon_dynamo_db.Skeleton.Entries.{table_entries, copy_entries, copy_entry}

abbrev pub entries_of : Pairs → List EntryT
entries_of = map (λ e. record { key = e.0; value = e.1 })

-- One round: the block becomes the value of a new entry, and is freed.
copy_entry-block_of :
    (n i : ℕ) (k v : Bytes) (rest : M (Option (List EntryT))) {es : List EntryT} {m m' : Memory}
    → IsAmple m
    → rest (spend 2 2 m) ≡ ok (some es, m')
    → copy_entry n i k (some (block_of v)) rest m
      ≡ ok (some (record { key = k; value = v } ∷ es), m')
unfolding copy_entry
copy_entry-block_of n i k v rest {es} {m} {m'} ample later = ground (
  arith,
  malloc-IsAmple 48 ample,
  malloc-IsAmple (length v) (IsAmple-spend 1 0 ample),
  memcpy-all (spend 2 0 m) v,
  block_destroy-spend v (spend 2 0 m),
  later,
)

module _ {bs : Buckets} (t : IsTable bs) where
  copy_entries-IsListed :
      (xs : Pairs) (n i : ℕ) {m : Memory}
      → IsAmple m
      → All (IsListed bs) xs
      → copy_entries (some (table_of bs)) n i (keys_of xs) m
        ≡ ok (some (entries_of xs), spend (4 * length xs) (2 * length xs) m)
  unfolding copy_entries
  copy_entries-IsListed [] n i ample l = ground arith
  copy_entries-IsListed (x ∷ xs) n i {m} ample l =
      let later : copy_entries (some (table_of bs)) n (i + 1) (keys_of xs) (spend 2 2 (spend 2 0 m))
          ≡ ok (some (entries_of xs), spend (4 * length (x ∷ xs)) (2 * length (x ∷ xs)) m) =
        ground (arith, copy_entries-IsListed xs n (i + 1) (IsAmple-spend 4 2 ample) l.1) in
      let round =
        copy_entry-block_of n i x.0 x.1 (copy_entries (some (table_of bs)) n (i + 1) (keys_of xs))
          (IsAmple-spend 2 0 ample) later in
      ground (arith, table_get-view t x.0 l.0.1 ample, l.0.0, round)

  pub table_entries-all_pairs :
      {m : Memory}
      → IsAmple m
      → table_entries (some (table_of bs)) (all_keys bs) m
        ≡ ok (some (entries_of (all_pairs bs)), spend (4 * total bs + 1) (2 * total bs) m)
  unfolding table_entries
  table_entries-all_pairs {m} ample =
      let n = length (all_keys bs) in
      let copied =
        copy_entries-IsListed (all_pairs bs) n 0 (IsAmple-spend 1 0 ample) (all_pairs-IsListed t) in
      ground
        (arith, malloc-IsAmple (8 * n) ample, keys_of-all_pairs bs, copied, length-all_pairs bs)
