-- ===== src/Table/Keys/Laws.antt =====
-- `table_create` and `table_get_keys` when every request for memory is granted.
use amazon_dynamo_db.Prelude.{
  ℕ, zero, suc, ◌+◌, ◌*◌, ◌≤◌, ◌<◌, ◌≡◌, refl, pos, some, none, Option, List, [], ◌∷◌, ◌++◌, arith,
  int_limit, length, length-map, length-append, lt→ltb, length-replicate,
}
use amazon_dynamo_db.Memory.{ok, Memory}
use amazon_dynamo_db.Memory.Spend.{
  IsAmple, IsAmple-spend, spend, malloc-IsAmple, int_add-pos, free_first-spend, free-spend,
}
use amazon_dynamo_db.Strings.{Bytes}
use amazon_dynamo_db.Assoc.{Pairs}
use amazon_dynamo_db.LinkedList.{list_size}
use amazon_dynamo_db.LinkedList.Refines.{list_create-nil}
use amazon_dynamo_db.LinkedList.Keys.{
  keys_of, list_get_keys-keys_of, list_free_keys-spend, list_get_keys-nil, list_free_keys-none,
}
use amazon_dynamo_db.Table.{table_create, create_lists}
use amazon_dynamo_db.Table.Buckets.{Buckets, table_of, total, empty}
use amazon_dynamo_db.Table.Refines.{table_size-total}
use amazon_dynamo_db.Table.Keys.{
  copy_list_keys, keys_loop, get_keys, table_get_keys, table_free_keys,
}

create_lists-empty :
    (n : ℕ) {m : Memory}
    → IsAmple m
    → create_lists n m ≡ ok ((table_of (empty n)).lists, spend n 0 m)
unfolding create_lists
create_lists-empty zero ample = ground arith
create_lists-empty (suc n) ample =
    ground (arith, list_create-nil ample, create_lists-empty n (IsAmple-spend 1 0 ample))

-- table_create of at least one list returns a table of that many empty lists, in a block for it,
-- one for the array and one for each list, when malloc grants every request.
pub table_create-empty :
    (n : ℕ) {m : Memory}
    → IsAmple m
    → table_create (pos (suc n)) m ≡ ok (some (table_of (empty (suc n))), spend (n + 3) 0 m)
unfolding table_create
table_create-empty n {m} ample =
    let lists = create_lists-empty (suc n) (IsAmple-spend 2 0 ample) in
    ground (
      arith,
      malloc-IsAmple 16 ample,
      malloc-IsAmple (16 * suc n) (IsAmple-spend 1 0 ample),
      lists,
      length-replicate n (let xs : Pairs = [] in xs),
    )

-- The keys, list by list.
unfoldable pub all_keys : Buckets → List Bytes
all_keys [] = []
all_keys (xs ∷ bs) = keys_of xs ++ all_keys bs

-- The blocks that the keys of one list take, all but the copies that are kept for a while only.
unfoldable pub scratch : Pairs → ℕ
scratch [] = 0
scratch (x ∷ xs) = length xs + 2

unfoldable pub all_scratch : Buckets → ℕ
unfolding scratch
all_scratch [] = 0
all_scratch (xs ∷ bs) = scratch xs + all_scratch bs

pub length-all_keys : (bs : Buckets) → length (all_keys bs) ≡ total bs
unfolding all_keys total
length-all_keys [] = refl
length-all_keys (xs ∷ bs) = omega (
  arith,
  length-append (keys_of xs) (all_keys bs),
  length-map (λ (x : Bytes × Bytes). x.0) xs,
  length-all_keys bs,
)

copy_list_keys-keys_of :
    (xs : Pairs) (room c : ℕ) {m : Memory}
    → IsAmple m
    → c + length xs ≤ room
    → copy_list_keys (length xs) (some (keys_of xs)) room c m
      ≡ ok (some (keys_of xs), spend (length xs) 0 m)
unfolding copy_list_keys
copy_list_keys-keys_of [] room c ample h = ground arith
copy_list_keys-keys_of (x ∷ xs) room c ample h = ground (
  arith,
  malloc-IsAmple (length x.0 + 1) ample,
  lt→ltb c room,
  copy_list_keys-keys_of xs room (c + 1) (IsAmple-spend 1 0 ample),
)

copy_list_keys-zero :
    (l : Option (List Bytes)) (room c : ℕ) (m : Memory)
    → copy_list_keys 0 l room c m ≡ ok (some [], m)
unfolding copy_list_keys
copy_list_keys-zero l room c m = refl

keys_loop-all_keys :
    (bs : Buckets) (room c : ℕ) {m : Memory}
    → IsAmple m
    → c + total bs < room
    → total bs + 1 < int_limit
    → keys_loop (length bs) (table_of bs).lists room c m
      ≡ ok (some (all_keys bs), spend (all_scratch bs + total bs) (all_scratch bs) m)
unfolding keys_loop all_keys total all_scratch list_size
keys_loop-all_keys [] room c ample h few = ground arith
keys_loop-all_keys ([] ∷ bs) room c {m} ample h few = ground (
  arith,
  list_get_keys-nil m,
  copy_list_keys-zero none room c m,
  list_free_keys-none m,
  keys_loop-all_keys bs room (c + 0) ample,
)
keys_loop-all_keys ((x ∷ xs) ∷ bs) room c {m} ample h few =
    let n = length xs in
    let a = n + 2 in
    let copies = copy_list_keys-keys_of (x ∷ xs) room c (IsAmple-spend a 0 ample) (omega arith) in
    let counted = length-map (λ (e : Bytes × Bytes). e.0) xs in
    let free_l = list_free_keys-spend (keys_of (x ∷ xs)) (spend (a + (n + 1)) 0 m) in
    let rest =
      keys_loop-all_keys bs room (c + (n + 1)) (IsAmple-spend (a + (n + 1)) a ample)
        (omega arith) in
    ground (arith, list_get_keys-keys_of x xs ample (omega arith), copies, counted, free_l, rest)

-- table_get_keys returns copies of all the keys, list by list, and frees what it borrowed from the
-- lists, when malloc grants every request and one more than the entries fits an int.
pub table_get_keys-all_keys :
    (bs : Buckets) {m : Memory}
    → IsAmple m
    → total bs + 1 < int_limit
    → table_get_keys (some (table_of bs)) m
      ≡ ok (some (all_keys bs), spend (all_scratch bs + total bs + 1) (all_scratch bs) m)
unfolding table_get_keys get_keys
table_get_keys-all_keys bs {m} ample h = ground (
  arith,
  table_size-total bs m,
  int_add-pos m (total bs) 1,
  malloc-IsAmple ((total bs + 1) * 8) ample,
  keys_loop-all_keys bs (total bs + 1) 0 (IsAmple-spend 1 0 ample),
)

pub table_free_keys-spend :
    (ks : List Bytes) (m : Memory)
    → table_free_keys (some ks) m ≡ ok (pos 0, spend 0 (length ks + 1) m)
unfolding table_free_keys
table_free_keys-spend ks m =
    ground (arith, free_first-spend (length ks) m, free-spend (spend 0 (length ks) m))
