-- ===== src/Table.antt =====
-- source/table.c: a hash table of lists. A list is NULL where `list_create` found no memory.
pub mod Hash
pub mod Buckets
pub mod Refines
pub mod Put
pub mod Keys
pub mod Destroy
pub mod Session
pub mod Listing
use mathlib.Core.Option
use amazon_dynamo_db.Prelude.{
  ℕ, zero, suc, ◌+◌, ◌-◌, ◌*◌, ◌%◌, ◌^◌, ℤ, pos, negsuc, minus_one, ◌==ℤ◌, ◌+ℤ◌, Option, none, some,
  if◌then◌else◌, Ordering, List, [], ◌∷◌, ◌++◌, length, set, ltb, sub_ℕ,
}
use amazon_dynamo_db.Memory.{
  M, pure, crash, null_pointer, out_of_bounds, division_by_zero, malloc, free, free_first, deref,
  index, int_add, ◌>>=◌, ◌>>◌,
}
use amazon_dynamo_db.Strings.{Bytes}
use amazon_dynamo_db.Block.{Block, block_duplicate}
use amazon_dynamo_db.Entry.{Entry, entry_create, entry_replace}
use amazon_dynamo_db.LinkedList.{
  LinkedList, sizeof_list, list_create, list_add, list_size, list_get, list_get_keys,
  list_free_keys, list_remove, list_destroy,
}

pub record Table : Type 0 where
  pub size : ℤ
  pub lists : List (Option LinkedList)

-- sizeof(struct table_t)
abbrev pub sizeof_table : ℕ
sizeof_table = 16

create_lists : ℕ → M (List (Option LinkedList))
create_lists zero = pure []
create_lists (suc n) = do l ← list_create; rest ← create_lists n; pure (l ∷ rest)

pub table_create : ℤ → M (Option Table)
table_create (negsuc n) = pure none
table_create (pos zero) = pure none
table_create (pos (suc n)) = do
  granted ← malloc sizeof_table
  if granted
      then (do
        got ← malloc (sizeof_list * suc n)
        if got
            then (do
              lists ← create_lists (suc n)
              pure (some (record { size = pos (suc n); lists = lists })))
            else (do free; pure none))
      else pure none

-- `(int) *c`, where `char` is signed.
pub char_to_int : ℕ → ℤ
char_to_int c = if ltb c 128 then pos c else sub_ℕ c 256

sum_chars : ℤ → Bytes → M ℤ
sum_chars sum [] = pure sum
sum_chars sum (c ∷ key) = do sum' ← int_add sum (char_to_int c); sum_chars sum' key

-- `sum % n` for 0 < n; the result has the sign of `sum`.
pub remainder : ℤ → ℕ → ℤ
remainder (pos sum) n = pos (sum % n)
remainder (negsuc sum) n = sub_ℕ 0 (suc sum % n)

pub hash_function : Option Bytes → ℤ → M ℤ
hash_function none n_lists = pure minus_one
hash_function (some key) (negsuc n) = pure minus_one
hash_function (some key) (pos zero) = pure minus_one
hash_function (some key) (pos (suc n)) = do
  sum ← sum_chars (pos 0) key
  pure (remainder sum (suc n))

-- `t->lists[hash] = l`, for a list that is changed through its pointer.
pub store_list : Table → ℤ → Option LinkedList → Table
store_list t (pos i) l = record t { lists = set t.lists i l }
store_list t (negsuc i) l = t

-- The entry at position `i` of the list after `entry_replace`.
store_entry : Option LinkedList → ℕ → Option Entry → Option LinkedList
store_entry (some l) i (some e) = some (record l { head = set l.head i e })
store_entry l i e = l

put_entry :
    Table → ℤ → Option LinkedList → Bytes → Option Block → Option (ℕ × Entry) → M (ℤ × Table)
put_entry t hash l key block_copy (some (i, current_entry)) = do
  (codigo, e) ← entry_replace (some current_entry) (some key) block_copy
  pure (codigo, store_list t hash (store_entry l i e))
put_entry t hash l key block_copy none = do
  entry ← entry_create (some key) block_copy
  (codigo, l') ← list_add l entry
  pure (codigo, store_list t hash l')

put_copy : Table → Bytes → Block → M (ℤ × Table)
put_copy t key value = do
  granted ← malloc (length key + 1)
  if granted
      then (do
        hash ← hash_function (some key) t.size
        block_copy ← block_duplicate (some value)
        l ← index t.lists hash
        current_entry ← list_get l (some key)
        put_entry t hash l key block_copy current_entry)
      else pure (minus_one, t)

pub table_put : Option Table → Option Bytes → Option Block → M (ℤ × Option Table)
table_put none key value = pure (minus_one, none)
table_put (some t) none value = pure (minus_one, some t)
table_put (some t) (some key) none = pure (minus_one, some t)
table_put (some t) (some key) (some value) = do
  (codigo, t') ← put_copy t key value
  pure (codigo, some t')

pub table_get : Option Table → Option Bytes → M (Option Block)
table_get none key = pure none
table_get (some t) none = pure none
table_get (some t) (some key) = do
  hash ← hash_function (some key) t.size
  l ← index t.lists hash
  e ← list_get l (some key)
  elim e [ none ↦ pure none | some (_, entry) ↦ block_duplicate entry.value ]

-- The `for` of `table_size`: `n` rounds are left.
size_loop : ℕ → List (Option LinkedList) → ℤ → M ℤ
size_loop zero lists size = pure size
size_loop (suc n) [] size = crash out_of_bounds
size_loop (suc n) (l ∷ lists) size = if list_size l ==ℤ minus_one then pure minus_one else (do
  size' ← int_add size (elim (list_size l) [ pos k ↦ pos k | negsuc k ↦ pos 0 ])
  size_loop n lists size')

-- How often a loop `for (int i = 0; i < n; i++)` runs.
abbrev pub rounds : ℤ → ℕ
rounds (pos n) = n
rounds (negsuc n) = 0

pub table_size : Option Table → M ℤ
table_size none = pure minus_one
table_size (some t) = size_loop (rounds t.size) t.lists (pos 0)

pub table_remove : Option Table → Option Bytes → M (ℤ × Option Table)
table_remove none key = pure (minus_one, none)
table_remove (some t) none = pure (minus_one, some t)
table_remove (some t) (some key) = do
  hash ← hash_function (some key) t.size
  l ← index t.lists hash
  (code, l') ← list_remove l (some key)
  pure (code, some (store_list t hash l'))
