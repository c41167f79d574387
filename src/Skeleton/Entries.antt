-- ===== src/Skeleton/Entries.antt =====
-- The loop of `msgGetTable` in source/server_skeleton.c, which copies the table entry by entry.
pub mod Laws
use mathlib.Core.Option
use amazon_dynamo_db.Prelude.{ℕ, ◌+◌, ◌*◌, Option, none, some, if◌then◌else◌, List, [], ◌∷◌, length}
use amazon_dynamo_db.Memory.{
  M, pure, malloc, free, free_first, deref, memcpy, size_of_int, ◌>>=◌, ◌>>◌,
}
use amazon_dynamo_db.Strings.{Bytes}
use amazon_dynamo_db.Block.{Block, block_destroy}
use amazon_dynamo_db.Table.{Table, table_get}
use amazon_dynamo_db.LinkedList.{sizeof_pointer}
use amazon_dynamo_db.Messages.{EntryT}

-- sizeof(EntryT)
abbrev pub sizeof_entry_t : ℕ
sizeof_entry_t = 48

-- A way out: `filled` entries have data, `made` have a block of their own; they are freed with the
-- array, the `n` keys and the array of the keys.
unfoldable give_up : ℕ → ℕ → ℕ → M (Option (List EntryT))
give_up filled made n = do free_first (filled + made); free; free_first n; free; pure none

-- The `i`-th round, after `table_get`, with the rounds that follow.
copy_entry : ℕ → ℕ → Bytes → Option Block → M (Option (List EntryT)) → M (Option (List EntryT))
copy_entry n i key none rest = give_up i i n
copy_entry n i key (some block) rest = do
  made ← malloc sizeof_entry_t
  if made
      then (do
        granted ← malloc (size_of_int block.datasize)
        if granted
            then (do
              source ← deref block.data_
              copy ← memcpy source (size_of_int block.datasize)
              _ ← block_destroy (some block)
              entries ← rest
              pure (Option.map (λ es. record { key = key; value = copy } ∷ es) entries))
            else give_up i (i + 1) n)
      else give_up i i n

copy_entries : Option Table → ℕ → ℕ → List Bytes → M (Option (List EntryT))
copy_entries table n i [] = pure (some [])
copy_entries table n i (key ∷ keys) = do
  block ← table_get table (some key)
  copy_entry n i key block (copy_entries table n (i + 1) keys)

-- The entries under these keys; NULL, with the keys freed, when one could not be copied.
pub table_entries : Option Table → List Bytes → M (Option (List EntryT))
table_entries table keys = do
  granted ← malloc (sizeof_pointer * length keys)
  if granted
      then copy_entries table (length keys) 0 keys
      else (do free_first (length keys); free; pure none)
