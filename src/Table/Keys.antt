-- ===== src/Table/Keys.antt =====
-- `table_get_keys` and `table_free_keys` of source/table.c.
pub mod Laws
use mathlib.Core.Option
use amazon_dynamo_db.Prelude.{
  ℕ, zero, suc, ◌+◌, ◌*◌, ℤ, pos, negsuc, minus_one, Option, none, some, if◌then◌else◌, List, [],
  ◌∷◌, ◌++◌, length, ltb,
}
use amazon_dynamo_db.Memory.{
  M, pure, crash, null_pointer, out_of_bounds, malloc, free, free_first, int_add, ◌>>=◌, ◌>>◌,
}
use amazon_dynamo_db.Strings.{Bytes}
use amazon_dynamo_db.LinkedList.{
  LinkedList, sizeof_pointer, list_size, list_get_keys, list_free_keys,
}
use amazon_dynamo_db.Table.{Table, rounds, table_size}

-- The copies of `n` keys of one list into an array with room for `room` pointers, `key_counter` of
-- which are taken: NULL when there was no memory for a copy.
copy_list_keys : ℕ → Option (List Bytes) → ℕ → ℕ → M (Option (List Bytes))
copy_list_keys zero l room key_counter = pure (some [])
copy_list_keys (suc n) none room key_counter = crash null_pointer
copy_list_keys (suc n) (some []) room key_counter = crash null_pointer
copy_list_keys (suc n) (some (key ∷ l)) room key_counter = do
  granted ← malloc (length key + 1)
  if ltb key_counter room
      then (if granted
          then (do
            keys ← copy_list_keys n (some l) room (key_counter + 1)
            pure (Option.map (λ ks. key ∷ ks) keys))
          else (do free_first key_counter; free; pure none))
      else crash out_of_bounds

-- The outer `for`: `n` rounds are left. The last step ends the array with NULL.
keys_loop : ℕ → List (Option LinkedList) → ℕ → ℕ → M (Option (List Bytes))
keys_loop zero lists room key_counter =
    if ltb key_counter room then pure (some []) else crash out_of_bounds
keys_loop (suc n) [] room key_counter = crash out_of_bounds
keys_loop (suc n) (list ∷ lists) room key_counter = do
  l ← list_get_keys list
  copied ← copy_list_keys (rounds (list_size list)) l room key_counter
  _ ← list_free_keys l
  elim copied [
    | none ↦ pure none
    | some keys ↦ do
      rest ← keys_loop n lists room (key_counter + length keys)
      pure (Option.map (λ ks. keys ++ ks) rest)
  ]

-- The array has room for one pointer more than `table_size` says; -1 leaves no room.
get_keys : Table → ℤ → M (Option (List Bytes))
get_keys t (negsuc n) = crash out_of_bounds
get_keys t (pos room) = do
  granted ← malloc (room * sizeof_pointer)
  if granted then keys_loop (rounds t.size) t.lists room 0 else pure none

pub table_get_keys : Option Table → M (Option (List Bytes))
table_get_keys none = pure none
table_get_keys (some t) = do
  size ← table_size (some t)
  room ← int_add size (pos 1)
  get_keys t room

pub table_free_keys : Option (List Bytes) → M ℤ
table_free_keys none = pure minus_one
table_free_keys (some keys) = do free_first (length keys); free; pure (pos 0)
