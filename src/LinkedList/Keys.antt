-- ===== src/LinkedList/Keys.antt =====
-- `list_get_keys`, `list_free_keys` and `list_destroy` of source/list.c, when every request for
-- memory is granted.
use amazon_dynamo_db.Prelude.{
  ℕ, suc, ◌+◌, ◌*◌, ◌<◌, ◌≡◌, refl, none, some, List, [], ◌∷◌, arith, length, pos, minus_one, map,
  int_limit, length-map,
}
use amazon_dynamo_db.Memory.{ok, Memory}
use amazon_dynamo_db.Memory.Spend.{
  int_add-pos, IsAmple, IsAmple-spend, spend, malloc-IsAmple, free-spend, free_first-spend,
}
use amazon_dynamo_db.Strings.{Bytes}
use amazon_dynamo_db.Strings.Order.{strcmp_self}
use amazon_dynamo_db.Entry.Laws.{entry_of}
use amazon_dynamo_db.Assoc.{Pairs, remove, has_key}
use amazon_dynamo_db.LinkedList.{
  copy_keys, get_keys, copy_all_keys, keys_bytes, list_get_keys, list_free_keys, remove_keys,
  destroy_with_keys, list_destroy,
}
use amazon_dynamo_db.LinkedList.Refines.{list_of, list_remove-remove}

-- The copies of the keys, in order.
abbrev pub keys_of : Pairs → List Bytes
keys_of = map (λ x. x.0)

copy_keys-keys_of :
    (xs : Pairs) (i : ℕ) {m : Memory}
    → IsAmple m
    → copy_keys (length xs) (map entry_of xs) i m ≡ ok (some (keys_of xs), spend (length xs) 0 m)
unfolding copy_keys
copy_keys-keys_of [] i ample = ground arith
copy_keys-keys_of (x ∷ xs) i {m} ample = ground (
  arith,
  malloc-IsAmple (length x.0 + 1) ample,
  copy_keys-keys_of xs (i + 1) (IsAmple-spend 1 0 ample),
)

-- list_get_keys of a list with entries returns copies of its keys in order, in a block for each and
-- one for the array, when malloc grants every request and one more than the entries fits an int.
pub list_get_keys-keys_of :
    (x : Bytes × Bytes) (xs : Pairs) {m : Memory}
    → IsAmple m
    → length xs + 2 < int_limit
    → list_get_keys (some (list_of (x ∷ xs))) m
      ≡ ok (some (keys_of (x ∷ xs)), spend (length xs + 2) 0 m)
unfolding list_get_keys get_keys copy_all_keys
list_get_keys-keys_of x xs {m} ample h = ground (
  arith,
  int_add-pos m (suc (length xs)) 1,
  malloc-IsAmple (keys_bytes (pos (suc (length xs) + 1))) ample,
  copy_keys-keys_of (x ∷ xs) 0 (IsAmple-spend 1 0 ample),
)

pub list_free_keys-spend :
    (ks : List Bytes) (m : Memory)
    → list_free_keys (some ks) m ≡ ok (pos 0, spend 0 (length ks + 1) m)
unfolding list_free_keys
list_free_keys-spend ks m =
    ground (arith, free_first-spend (length ks) m, free-spend (spend 0 (length ks) m))

remove_keys-keys_of :
    (xs : Pairs) (m : Memory)
    → length xs < int_limit
    → remove_keys (some (list_of xs)) (keys_of xs) m
      ≡ ok (some (list_of []), spend 0 (5 * length xs) m)
unfolding remove_keys remove has_key
remove_keys-keys_of [] m h = ground arith
remove_keys-keys_of (x ∷ xs) m h = ground (
  arith,
  list_remove-remove x.0 (x ∷ xs) m,
  strcmp_self x.0,
  remove_keys-keys_of xs (spend 0 5 m),
)

-- An empty list is freed, and the code is the error code -1.
pub list_destroy-nil :
    (m : Memory) → list_destroy (some (list_of [])) m ≡ ok (minus_one, spend 0 1 m)
unfolding list_destroy list_get_keys get_keys destroy_with_keys
list_destroy-nil m = ground (arith, free-spend m)

-- list_destroy of a list with entries returns 0 and frees the list, the five blocks of each entry
-- and everything that it takes itself, when malloc grants every request and one more than the
-- entries fits an int.
pub list_destroy-cons :
    (x : Bytes × Bytes) (xs : Pairs) {m : Memory}
    → IsAmple m
    → length xs + 2 < int_limit
    → list_destroy (some (list_of (x ∷ xs))) m
      ≡ ok (pos 0, spend (length xs + 2) (6 * (length xs + 1) + 2) m)
unfolding list_destroy destroy_with_keys
list_destroy-cons x xs {m} ample h = ground (
  arith,
  list_get_keys-keys_of x xs ample h,
  remove_keys-keys_of (x ∷ xs) (spend (length xs + 2) 0 m),
  list_free_keys-spend (keys_of (x ∷ xs)) (spend (length xs + 2) (5 * (length xs + 1)) m),
  length-map (λ (e : Bytes × Bytes). e.0) xs,
  free-spend (spend (length xs + 2) (6 * (length xs + 1) + 1) m),
)

pub list_get_keys-nil : (m : Memory) → list_get_keys (some (list_of [])) m ≡ ok (none, m)
unfolding list_get_keys get_keys
list_get_keys-nil m = refl

pub list_free_keys-none : (m : Memory) → list_free_keys none m ≡ ok (minus_one, m)
unfolding list_free_keys
list_free_keys-none m = refl
