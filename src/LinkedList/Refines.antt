-- ===== src/LinkedList/Refines.antt =====
-- The operations of source/list.c on the list that stands for an association list, when every
-- request for memory is granted: their codes, the lists they leave, and the memory they use.
use amazon_dynamo_db.Prelude.{
  ℕ, ◌+◌, ◌<◌, ◌≡◌, refl, Bool, Option, none, some, [], ◌∷◌, if◌then◌else◌, arith, length, ℤ, pos,
  map, int_limit,
}
use amazon_dynamo_db.Memory.{ok, Memory}
use amazon_dynamo_db.Memory.Spend.{
  IsAmple, spend, malloc-IsAmple, free-spend, int_add-pos, int_add-pred,
}
use amazon_dynamo_db.Strings.{Bytes}
use amazon_dynamo_db.Strings.Order.{strcmp-eq}
use amazon_dynamo_db.Entry.{Entry}
use amazon_dynamo_db.Entry.Laws.{entry_of, entry_compare-order_code, entry_destroy-spend}
use amazon_dynamo_db.Assoc.{Pairs, find, insert, remove, replaces, has_key}
use amazon_dynamo_db.Assoc.Position.{position}
use amazon_dynamo_db.Assoc.Finds.{length-insert, length-remove}
use amazon_dynamo_db.LinkedList.{
  LinkedList, list_create, add_walk, add_switch, add_after_head, add_entry, list_add, get_from,
  list_get, remove_walk, list_remove,
}

abbrev pub list_of : Pairs → LinkedList
list_of xs = record { size = pos (length xs); head = map entry_of xs }

-- The code of `list_add`: 1 if an entry was replaced, 0 if one was added.
abbrev pub add_code : Bool → ℤ
add_code replaced = if replaced then pos 1 else pos 0

-- The blocks that `list_add` frees: the node that is not needed, and the entry that is replaced.
abbrev pub add_frees : Bool → ℕ
add_frees replaced = if replaced then 5 else 0

add_walk-insert :
    (e : Bytes × Bytes) (xs : Pairs) (m : Memory)
    → add_walk (entry_of e) (map entry_of xs) m
      ≡ ok (
        (add_code (replaces e.0 xs), map entry_of (insert e xs)),
        spend 0 (add_frees (replaces e.0 xs)) m,
      )
unfolding add_walk insert replaces
add_walk-insert e [] m = ground arith
add_walk-insert e (x ∷ xs) m = ground (
  arith,
  entry_compare-order_code e x m,
  entry_destroy-spend x m,
  free-spend (spend 0 4 m),
  add_walk-insert e xs m,
)

add_entry-insert :
    {m : Memory} (ample : IsAmple m) (e : Bytes × Bytes) (xs : Pairs)
    → length xs + 1 < int_limit
    → add_entry (list_of xs) (entry_of e) m
      ≡ ok (
        (add_code (replaces e.0 xs), list_of (insert e xs)),
        spend 1 (add_frees (replaces e.0 xs)) m,
      )
unfolding add_entry add_after_head add_switch insert replaces
add_entry-insert {m} ample e [] h =
    ground (arith, malloc-IsAmple 16 ample, int_add-pos (spend 1 0 m) 0 1)
add_entry-insert {m} ample e (x ∷ xs) h = ground (
  arith,
  malloc-IsAmple 16 ample,
  entry_compare-order_code e x (spend 1 0 m),
  entry_destroy-spend x (spend 1 0 m),
  free-spend (spend 1 4 m),
  add_walk-insert e xs (spend 1 0 m),
  int_add-pos (spend 1 0 m) (length xs + 1) 1,
  length-insert e xs,
)

-- list_add inserts an entry in the order of the keys, or replaces the entry with its key, and says
-- which by its code; the node and the replaced entry are freed, when malloc grants every request
-- and one more than the size fits an int.
pub list_add-insert :
    {m : Memory} (ample : IsAmple m) (e : Bytes × Bytes) (xs : Pairs)
    → length xs + 1 < int_limit
    → list_add (some (list_of xs)) (some (entry_of e)) m
      ≡ ok (
        (add_code (replaces e.0 xs), some (list_of (insert e xs))),
        spend 1 (add_frees (replaces e.0 xs)) m,
      )
unfolding list_add
list_add-insert ample e xs h = ground (arith, add_entry-insert ample e xs h)

-- The entry with the value that it has in the list.
abbrev pub located : Bytes → Option ℕ → Option Bytes → Option (ℕ × Entry)
located k none v = none
located k (some i) none = none
located k (some i) (some v) = some (i, entry_of (k, v))

get_from-find :
    (i : ℕ) (k : Bytes) (xs : Pairs) (m : Memory)
    → get_from i (map entry_of xs) k m ≡ ok (located k (position i k xs) (find k xs), m)
unfolding get_from position find
get_from-find i k [] m = refl
get_from-find i k (x ∷ xs) m = ground (arith, get_from-find (i + 1) k xs m, strcmp-eq x.0 k)

-- list_get returns the first entry with the key, at its position, or NULL when no entry has the
-- key.
pub list_get-find :
    (k : Bytes) (xs : Pairs) (m : Memory)
    → list_get (some (list_of xs)) (some k) m ≡ ok (located k (position 0 k xs) (find k xs), m)
unfolding list_get
list_get-find k xs m = get_from-find 0 k xs m

remove_walk-remove :
    (k : Bytes) (xs : Pairs) (m : Memory)
    → remove_walk (map entry_of xs) k m
      ≡ ok (
        ((if has_key k xs then pos 0 else pos 1), map entry_of (remove k xs)),
        spend 0 (if has_key k xs then 5 else 0) m,
      )
unfolding remove_walk remove has_key
remove_walk-remove k [] m = ground arith
remove_walk-remove k (x ∷ xs) m =
    ground (arith, entry_destroy-spend x m, free-spend (spend 0 4 m), remove_walk-remove k xs m)

-- list_remove takes out the first entry with the key and frees its five blocks with the code 0, or
-- leaves the list as it is with the code 1, whatever malloc does, while the size is an int.
pub list_remove-remove :
    (k : Bytes) (xs : Pairs) (m : Memory)
    → length xs < int_limit
    → list_remove (some (list_of xs)) (some k) m
      ≡ ok (
        ((if has_key k xs then pos 0 else pos 1), some (list_of (remove k xs))),
        spend 0 (if has_key k xs then 5 else 0) m,
      )
unfolding list_remove
list_remove-remove k xs m h =
    ground
      (arith, remove_walk-remove k xs m, length-remove k xs, int_add-pred (length xs) (spend 0 5 m))

pub list_create-nil :
    {m : Memory} (ample : IsAmple m) → list_create m ≡ ok (some (list_of []), spend 1 0 m)
unfolding list_create
list_create-nil ample = ground (arith, malloc-IsAmple 16 ample)
