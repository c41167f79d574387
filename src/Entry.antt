-- ===== src/Entry.antt =====
-- source/entry.c: pairs of a key and a block.
pub mod Laws
use amazon_dynamo_db.Prelude.{
  ℕ, ◌+◌, ℤ, pos, negsuc, minus_one, Option, none, some, if◌then◌else◌, Ordering, length,
}
use amazon_dynamo_db.Memory.{M, pure, malloc, free, free_ptr, deref, ◌>>=◌, ◌>>◌}
use amazon_dynamo_db.Strings.{Bytes, strcmp}
use amazon_dynamo_db.Block.{Block, block_duplicate, block_destroy}

pub record Entry : Type 0 where
  pub key : Option Bytes
  pub value : Option Block

-- sizeof(struct entry_t)
abbrev pub sizeof_entry : ℕ
sizeof_entry = 16

pub entry_create : Option Bytes → Option Block → M (Option Entry)
entry_create none value = pure none
entry_create (some key) none = pure none
entry_create (some key) (some value) = do
  granted ← malloc sizeof_entry
  if granted then pure (some (record { key = some key; value = some value })) else pure none

pub entry_compare : Option Entry → Option Entry → M ℤ
entry_compare none e2 = pure (negsuc 1)
entry_compare (some e1) none = pure (negsuc 1)
entry_compare (some e1) (some e2) = do
  key1 ← deref e1.key
  key2 ← deref e2.key
  elim (strcmp key1 key2) [
    | Ordering.lt ↦ pure (negsuc 0)
    | Ordering.gt ↦ pure (pos 1)
    | Ordering.eq ↦ pure (pos 0)
  ]

-- The two fields of the copy, in the order of the code. When there is no memory for the key, the
-- header of the copied block is freed and its data are not.
duplicate_fields : Option Bytes → Option Block → M (Option Entry)
duplicate_fields none value = pure none
duplicate_fields (some key) none = pure none
duplicate_fields (some key) (some value) = do
  granted ← malloc sizeof_entry
  if granted
      then (do
        copy ← block_duplicate (some value)
        elim copy [
          | none ↦ do free; pure none
          | some block ↦ do
            got ← malloc (length key + 1)
            if got
                then pure (some (record { key = some key; value = some block }))
                else (do free; free; pure none)
        ])
      else pure none

pub entry_duplicate : Option Entry → M (Option Entry)
entry_duplicate none = pure none
entry_duplicate (some e) = duplicate_fields e.key e.value

-- The code, and what `e` then points to.
pub entry_replace : Option Entry → Option Bytes → Option Block → M (ℤ × Option Entry)
entry_replace none new_key new_value = pure (minus_one, none)
entry_replace (some e) none new_value = pure (minus_one, some e)
entry_replace (some e) (some key) none = pure (minus_one, some e)
entry_replace (some e) (some key) (some value) = do
  _ ← block_destroy e.value
  free_ptr e.key
  pure (pos 0, some (record { key = some key; value = some value }))

destroy_fields : Option Bytes → Option Block → M ℤ
destroy_fields none value = pure minus_one
destroy_fields (some key) none = pure minus_one
destroy_fields (some key) (some value) = do free; _ ← block_destroy (some value); free; pure (pos 0)

pub entry_destroy : Option Entry → M ℤ
entry_destroy none = pure minus_one
entry_destroy (some e) = destroy_fields e.key e.value
