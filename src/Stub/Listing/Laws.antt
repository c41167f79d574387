-- ===== src/Stub/Listing/Laws.antt =====
-- What a client copies of a whole table, when it and the server are granted every request for memory.
use amazon_dynamo_db.Prelude.{
  ℕ, ◌+◌, ◌*◌, ◌<◌, ◌≡◌, refl, some, List, [], ◌∷◌, All, arith, int_limit, length, map,
}
use amazon_dynamo_db.Memory.{ok, Memory, M, free_ptr, ◌>>=◌}
use amazon_dynamo_db.Memory.Spend.{
  IsAmple, IsAmple-spend, spend, malloc-IsAmple, free-spend, free_first-spend, memcpy-all,
}
use amazon_dynamo_db.Strings.{Bytes}
use amazon_dynamo_db.Block.Laws.{
  block_of, block_destroy-spend, block_create-copy, block_duplicate-copy,
}
use amazon_dynamo_db.Entry.Laws.{entry_of}
use amazon_dynamo_db.Assoc.{Pairs}
use amazon_dynamo_db.Table.Buckets.{Buckets, IsTable, table_of, total}
use amazon_dynamo_db.Table.Keys.Laws.{all_keys, all_scratch, length-all_keys}
use amazon_dynamo_db.Table.Listing.{all_pairs, length-all_pairs, IsListed, all_pairs-IsListed}
use amazon_dynamo_db.Messages.{StatisticsT}
use amazon_dynamo_db.Messages.Opcode
use amazon_dynamo_db.Skeleton.{int_of_size}
use amazon_dynamo_db.Skeleton.Entries.Laws.{entries_of}
use amazon_dynamo_db.Skeleton.Listing.{invoke-getkeys, invoke-gettable, invoke-stats}
use amazon_dynamo_db.Stub.{Link, bare_request}
use amazon_dynamo_db.Stub.Server.{Server, running, server_link}
use amazon_dynamo_db.Stub.Listing.{
  rtable_get_keys, take_keys, copy_answer_keys, rtable_get_table, take_table, copy_answer_entries,
  take_block, rtable_stats, take_stats, rtable_free_keys, rtable_free_entries, free_entries,
}

copy_answer_keys_lem :
    (ks : List Bytes) (i : ℕ) {m : Memory}
    → IsAmple m
    → copy_answer_keys (length ks) ks i m ≡ ok (some ks, spend (length ks) 0 m)
unfolding copy_answer_keys
copy_answer_keys_lem [] i ample = ground arith
copy_answer_keys_lem (k ∷ ks) i ample = ground (
  arith,
  malloc-IsAmple (length k + 1) ample,
  copy_answer_keys_lem ks (i + 1) (IsAmple-spend 1 0 ample),
)

take_block-block_of :
    (v : Bytes) {m : Memory}
    → IsAmple m
    → (0 < length v) × (length v < int_limit)
    → take_block v m ≡ ok (some (block_of v), spend 3 2 m)
unfolding take_block int_of_size
take_block-block_of v {m} ample sized = ground (
  arith,
  memcpy-all m v,
  block_create-copy ample v sized.0,
  block_duplicate-copy (IsAmple-spend 1 0 ample) v sized.0,
  block_destroy-spend v (spend 3 0 m),
)

-- The value has bytes, and an `int` counts them.
abbrev pub IsSized : Bytes × Bytes → Type 0
IsSized e = (0 < length e.1) × (length e.1 < int_limit)

copy_answer_entries_lem :
    (xs : Pairs) (i : ℕ) {m : Memory}
    → IsAmple m
    → All IsSized xs
    → copy_answer_entries (length xs) (entries_of xs) i m
      ≡ ok (some (map entry_of xs), spend (6 * length xs) (2 * length xs) m)
unfolding copy_answer_entries
copy_answer_entries_lem [] i ample sized = ground arith
copy_answer_entries_lem (x ∷ xs) i {m} ample sized =
    let taken = take_block-block_of x.1 (IsAmple-spend 3 0 ample) sized.0 in
    let rest = copy_answer_entries_lem xs (i + 1) (IsAmple-spend 6 2 ample) sized.1 in
    ground (
      arith,
      malloc-IsAmple 16 ample,
      malloc-IsAmple (length x.0 + 1) (IsAmple-spend 1 0 ample),
      malloc-IsAmple (length x.1) (IsAmple-spend 2 0 ample),
      taken,
      rest,
    )

IsListed-IsSized :
    (bs : Buckets) (xs : Pairs)
    → All (IsListed bs) xs
    → All (λ e. length e.1 < int_limit) xs
    → All IsSized xs
IsListed-IsSized bs [] l s = tt
IsListed-IsSized bs (x ∷ xs) l s = ((l.0.2, s.0), IsListed-IsSized bs xs l.1 s.1)

module _ {bs : Buckets} (t : IsTable bs) (stats : StatisticsT) {m sm : Memory} (ample : IsAmple m)
    (server_ample : IsAmple sm) where
  -- rtable_get_keys returns copies of all the keys of a server with a valid table, list by list,
  -- when client and server are granted every request for memory and one more than the entries fits
  -- an int.
  pub rtable_get_keys-all_keys :
      total bs + 1 < int_limit
      → rtable_get_keys (some server_link) (running stats (some (table_of bs)) sm) m
        ≡ ok (
          (
            some (all_keys bs),
            running stats
                (some (table_of bs))
                (spend (all_scratch bs + total bs + 1) (all_scratch bs) sm),
          ),
          spend (total bs + 1) 0 m,
        )
  unfolding rtable_get_keys take_keys
  rtable_get_keys-all_keys room =
      let answered =
        invoke-getkeys t stats (bare_request Opcode.getkeys) server_ample (refl, refl) room in
      ground (
        arith,
        answered,
        malloc-IsAmple (8 * (length (all_keys bs) + 1)) ample,
        copy_answer_keys_lem (all_keys bs) 0 (IsAmple-spend 1 0 ample),
        length-all_keys bs,
      )

  -- rtable_get_table returns copies of all the entries of a server with a valid table, list by
  -- list, when client and server are granted every request for memory, and the length of each value
  -- and one more than the entries fit an int.
  pub rtable_get_table-all_pairs :
      total bs + 1 < int_limit
      → All (λ e. length e.1 < int_limit) (all_pairs bs)
      → rtable_get_table (some server_link) (running stats (some (table_of bs)) sm) m
        ≡ ok (
          (
            some (map entry_of (all_pairs bs)),
            running stats
                (some (table_of bs))
                (spend (all_scratch bs + 5 * total bs + 2) (all_scratch bs + 2 * total bs + 1) sm),
          ),
          spend (6 * total bs + 1) (2 * total bs) m,
        )
  unfolding rtable_get_table take_table
  rtable_get_table-all_pairs room short =
      let answered =
        invoke-gettable t stats (bare_request Opcode.gettable) server_ample (refl, refl) room in
      let sized = IsListed-IsSized bs (all_pairs bs) (all_pairs-IsListed t) short in
      ground (
        arith,
        answered,
        malloc-IsAmple (8 * (length (all_pairs bs) + 1)) ample,
        copy_answer_entries_lem (all_pairs bs) 0 (IsAmple-spend 1 0 ample) sized,
        length-all_pairs bs,
      )

  -- `rtable_stats` returns a copy of the statistics of the server.
  pub rtable_stats-stats :
      rtable_stats (some server_link) (running stats (some (table_of bs)) sm) m
      ≡ ok ((some stats, running stats (some (table_of bs)) (spend 1 0 sm)), spend 1 0 m)
  unfolding rtable_stats take_stats
  rtable_stats-stats =
      let answered = invoke-stats t stats (bare_request Opcode.stats) server_ample (refl, refl) in
      ground (arith, answered, malloc-IsAmple 12 ample)

-- Links that give the same answer give the same table.
pub rtable_get_table-answer :
    {S : Type 0} (link link' : Link S) (s : S) (m : Memory)
    → link.send_receive (bare_request Opcode.gettable) s
      ≡ link'.send_receive (bare_request Opcode.gettable) s
    → rtable_get_table (some link) s m ≡ rtable_get_table (some link') s m
unfolding rtable_get_table
rtable_get_table-answer link link' s m e = rw e refl

-- `rtable_free_keys` frees each key and the array.
pub rtable_free_keys-spend :
    (ks : List Bytes) (m : Memory)
    → rtable_free_keys (some ks) m ≡ ok (tt, spend 0 (length ks + 1) m)
unfolding rtable_free_keys
rtable_free_keys-spend ks m =
    ground (arith, free_first-spend (length ks) m, free-spend (spend 0 (length ks) m))

free_entries-spend :
    (xs : Pairs) (m : Memory)
    → free_entries (map entry_of xs) m ≡ ok (tt, spend 0 (4 * length xs + 1) m)
unfolding free_entries free_ptr
free_entries-spend [] m = ground (arith, free-spend m)
free_entries-spend (x ∷ xs) m = ground (
  arith,
  free-spend m,
  block_destroy-spend x.1 (spend 0 1 m),
  free-spend (spend 0 3 m),
  free_entries-spend xs (spend 0 4 m),
)

-- `rtable_free_entries` frees four blocks for each entry, and the array.
pub rtable_free_entries-spend :
    (xs : Pairs) (m : Memory)
    → rtable_free_entries (some (map entry_of xs)) m ≡ ok (tt, spend 0 (4 * length xs + 1) m)
unfolding rtable_free_entries
rtable_free_entries-spend xs m = free_entries-spend xs m

-- A client that asks for the table, and frees what it is given.
pub borrow_table : Server → M (Unit {0})
borrow_table s = do
  (entries, _) ← rtable_get_table (some server_link) s
  rtable_free_entries entries

-- A client that asks for the table and passes what it is given to rtable_free_entries has freed
-- every block that it was granted, when client and server are granted every request for memory, and
-- the length of each value and one more than the entries fit an int.
pub borrow_table-balance :
    {bs : Buckets} (t : IsTable bs) (stats : StatisticsT) {m sm : Memory}
    → IsAmple m
    → IsAmple sm
    → total bs + 1 < int_limit
    → All (λ e. length e.1 < int_limit) (all_pairs bs)
    → borrow_table (running stats (some (table_of bs)) sm) m
      ≡ ok (tt, spend (6 * total bs + 1) (6 * total bs + 1) m)
unfolding borrow_table
borrow_table-balance {bs} t stats {m} ample server_ample room short = ground (
  arith,
  rtable_get_table-all_pairs t stats ample server_ample room short,
  rtable_free_entries-spend (all_pairs bs) (spend (6 * total bs + 1) (2 * total bs) m),
  length-all_pairs bs,
)
