-- ===== src/LinkedList.antt =====
-- source/list.c: linked lists of entries, by the entries of the nodes from `head` on. No node has a
-- NULL entry, as `list_add` refuses it. A pointer to an entry in a list is its position.

pub mod Refines
pub mod Keys
pub mod Scarce
use mathlib.Core.Option
use amazon_dynamo_db.Prelude.{
  ℕ, zero, suc, ◌+◌, ◌-◌, ◌*◌, ◌%◌, ◌^◌, ℤ, pos, negsuc, minus_one, ◌==ℤ◌, Option, none, some,
  if◌then◌else◌, Ordering, List, [], ◌∷◌, length,
}
use amazon_dynamo_db.Memory.{
  M, pure, crash, null_pointer, out_of_bounds, malloc, free, free_first, deref, int_add, ◌>>=◌,
  ◌>>◌,
}
use amazon_dynamo_db.Strings.{Bytes, strcmp}
use amazon_dynamo_db.Entry.{Entry, entry_compare, entry_destroy}

pub record LinkedList : Type 0 where
  pub size : ℤ
  pub head : List Entry

-- sizeof(struct list_t), sizeof(struct node_t), sizeof(char*)
abbrev pub sizeof_list : ℕ
sizeof_list = 16

abbrev pub sizeof_node : ℕ
sizeof_node = 16

abbrev pub sizeof_pointer : ℕ
sizeof_pointer = 8

pub list_create : M (Option LinkedList)
list_create = do
  granted ← malloc sizeof_list
  if granted then pure (some (record { size = pos 0; head = [] })) else pure none

-- The `while` of `list_add` from the node `cur` on: the code that is returned, and the nodes. It
-- stops at the end, at a greater key (both insert) or at an equal one.
add_walk : Entry → List Entry → M (ℤ × List Entry)
add_walk new [] = pure (pos 0, new ∷ [])
add_walk new (cur ∷ rest) = do
  entry_cmp ← entry_compare (some new) (some cur)
  elim entry_cmp [
    | negsuc _ ↦ pure (pos 0, new ∷ cur ∷ rest)
    | pos zero ↦ do
      destroyed ← entry_destroy (some cur)
      if destroyed ==ℤ minus_one
          then pure (minus_one, cur ∷ rest)
          else (do free; pure (pos 1, new ∷ rest))
    | pos (suc _) ↦ do (code, rest') ← add_walk new rest; pure (code, cur ∷ rest')
  ]

-- The `switch` of `list_add`, on how the new entry compares to the first.
add_switch : ℤ → LinkedList → Entry → Entry → List Entry → M (ℤ × LinkedList)
add_switch (pos (suc zero)) l new prev rest = do
  (code, rest') ← add_walk new rest
  if code ==ℤ pos 0
      then (do
        size ← int_add l.size (pos 1)
        pure (code, record { size = size; head = prev ∷ rest' }))
      else pure (code, record { size = l.size; head = prev ∷ rest' })
add_switch (pos zero) l new prev rest = do
  destroyed ← entry_destroy (some prev)
  if destroyed ==ℤ minus_one
      then pure (minus_one, l)
      else (do free; pure (pos 1, record { size = l.size; head = new ∷ rest }))
add_switch (negsuc zero) l new prev rest = do
  size ← int_add l.size (pos 1)
  pure (pos 0, record { size = size; head = new ∷ prev ∷ rest })
add_switch _ l new prev rest = do free; pure (minus_one, l)

add_after_head : LinkedList → Entry → List Entry → M (ℤ × LinkedList)
add_after_head l new [] = crash null_pointer
add_after_head l new (prev ∷ rest) = do
  entry_cmp ← entry_compare (some new) (some prev)
  add_switch entry_cmp l new prev rest

-- The result of `malloc` is not tested.
add_entry : LinkedList → Entry → M (ℤ × LinkedList)
add_entry l new = do
  granted ← malloc sizeof_node
  if granted
      then (if l.size ==ℤ pos 0
          then (do
            size ← int_add l.size (pos 1)
            pure (pos 0, record { size = size; head = new ∷ [] }))
          else add_after_head l new l.head)
      else crash null_pointer

pub list_add : Option LinkedList → Option Entry → M (ℤ × Option LinkedList)
list_add none entry = pure (minus_one, none)
list_add (some l) none = pure (minus_one, some l)
list_add (some l) (some entry) = do (code, l') ← add_entry l entry; pure (code, some l')

unfoldable pub list_size : Option LinkedList → ℤ
list_size none = minus_one
list_size (some l) = l.size

-- The first entry with this key, from position `i` on.
get_from : ℕ → List Entry → Bytes → M (Option (ℕ × Entry))
get_from i [] key = pure none
get_from i (cur ∷ rest) key = do
  k ← deref cur.key
  elim (strcmp k key) [ Ordering.eq ↦ pure (some (i, cur)) | _ ↦ get_from (i + 1) rest key ]

pub list_get : Option LinkedList → Option Bytes → M (Option (ℕ × Entry))
list_get none key = pure none
list_get (some l) none = pure none
list_get (some l) (some key) = get_from 0 l.head key

-- The way out of `list_get_keys` when a key cannot be copied.
release_keys : ℕ → M (Option (List Bytes))
release_keys i = do free_first i; free; pure none

-- The `for` of `list_get_keys`: `n` rounds are left, and `i` keys have been copied.
copy_keys : ℕ → List Entry → ℕ → M (Option (List Bytes))
copy_keys zero cur i = pure (some [])
copy_keys (suc n) [] i = crash null_pointer
copy_keys (suc n) (cur ∷ rest) i = elim cur.key [
  | none ↦ release_keys i
  | some key ↦ do
    granted ← malloc (length key + 1)
    if granted
        then (do keys ← copy_keys n rest (i + 1); pure (Option.map (λ ks. key ∷ ks) keys))
        else release_keys i
]

-- `room * sizeof(char*)`, where a negative `int` becomes a `size_t`.
keys_bytes : ℤ → ℕ
keys_bytes (pos n) = n * sizeof_pointer
keys_bytes (negsuc n) = (2 ^ 64 - suc n * sizeof_pointer) % 2 ^ 64

-- With a negative size there is no round, and `keys[size] = NULL` writes outside.
copy_all_keys : ℤ → List Entry → M (Option (List Bytes))
copy_all_keys (pos n) cur = copy_keys n cur 0
copy_all_keys (negsuc n) cur = crash out_of_bounds

get_keys : LinkedList → List Entry → M (Option (List Bytes))
get_keys l [] = pure none
get_keys l (cur ∷ rest) = do
  room ← int_add l.size (pos 1)
  granted ← malloc (keys_bytes room)
  if granted then copy_all_keys l.size (cur ∷ rest) else pure none

-- The array ends in NULL: it is the list of what comes before.
pub list_get_keys : Option LinkedList → M (Option (List Bytes))
list_get_keys none = pure none
list_get_keys (some l) = get_keys l l.head

pub list_free_keys : Option (List Bytes) → M ℤ
list_free_keys none = pure minus_one
list_free_keys (some keys) = do free_first (length keys); free; pure (pos 0)

-- The `while` of `list_remove`: the code, and the nodes that are linked afterwards.
remove_walk : List Entry → Bytes → M (ℤ × List Entry)
remove_walk [] key = pure (pos 1, [])
remove_walk (cur ∷ rest) key = do
  k ← deref cur.key
  elim (strcmp k key) [
    | Ordering.eq ↦ do
      destroyed ← entry_destroy (some cur)
      if destroyed ==ℤ minus_one then pure (minus_one, rest) else (do free; pure (pos 0, rest))
    | _ ↦ do (code, rest') ← remove_walk rest key; pure (code, cur ∷ rest')
  ]

pub list_remove : Option LinkedList → Option Bytes → M (ℤ × Option LinkedList)
list_remove none key = pure (minus_one, none)
list_remove (some l) none = pure (minus_one, some l)
list_remove (some l) (some key) = do
  (code, nodes) ← remove_walk l.head key
  if code ==ℤ pos 0
      then (do
        size ← int_add l.size minus_one
        pure (code, some (record { size = size; head = nodes })))
      else pure (code, some (record { size = l.size; head = nodes }))

remove_keys : Option LinkedList → List Bytes → M (Option LinkedList)
remove_keys l [] = pure l
remove_keys l (key ∷ keys) = do (_, l') ← list_remove l (some key); remove_keys l' keys

destroy_with_keys : LinkedList → Option (List Bytes) → M ℤ
destroy_with_keys l none = do free; pure minus_one
destroy_with_keys l (some keys) = do
  _ ← remove_keys (some l) keys
  freed ← list_free_keys (some keys)
  free
  pure (if freed ==ℤ minus_one then minus_one else pos 0)

pub list_destroy : Option LinkedList → M ℤ
list_destroy none = pure minus_one
list_destroy (some l) = do keys ← list_get_keys (some l); destroy_with_keys l keys
