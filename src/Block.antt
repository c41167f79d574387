-- ===== src/Block.antt =====
-- source/block.c: blocks of data.
pub mod Laws
use amazon_dynamo_db.Prelude.{
  ℕ, zero, suc, ℤ, pos, negsuc, minus_one, Option, none, some, is_positive, if◌then◌else◌,
}
use amazon_dynamo_db.Memory.{M, pure, malloc, free, free_ptr, memcpy, ◌>>=◌, ◌>>◌}
use amazon_dynamo_db.Strings.{Bytes}

-- `data` is NULL or points to a block of memory with these bytes, which need not be `datasize`.
pub record Block : Type 0 where
  pub datasize : ℤ
  pub data_ : Option Bytes

-- sizeof(struct block_t)
abbrev pub sizeof_block : ℕ
sizeof_block = 16

pub block_create : ℤ → Option Bytes → M (Option Block)
block_create size none = pure none
block_create size (some bytes) =
    if is_positive size
    then (do
      granted ← malloc sizeof_block
      if granted then pure (some (record { datasize = size; data_ = some bytes })) else pure none)
    else pure none

copy_data : ℤ → Option Bytes → M (Option Block)
copy_data size none = pure none
copy_data (negsuc n) (some bytes) = pure none
copy_data (pos zero) (some bytes) = pure none
copy_data (pos (suc n)) (some bytes) = do
  granted ← malloc (suc n)
  if granted
      then (do block_data ← memcpy bytes (suc n); block_create (pos (suc n)) (some block_data))
      else pure none

-- If the header cannot be allocated, the copied bytes are not freed.
pub block_duplicate : Option Block → M (Option Block)
block_duplicate none = pure none
block_duplicate (some b) = copy_data b.datasize b.data_

-- The bytes that the block had are not freed.
pub block_replace : Option Block → ℤ → Option Bytes → ℤ × Option Block
block_replace none new_size new_data = (minus_one, none)
block_replace (some b) new_size none = (minus_one, some b)
block_replace (some b) new_size (some bytes) =
    if is_positive new_size
    then (pos 0, some (record { datasize = new_size; data_ = some bytes }))
    else (minus_one, some b)

pub block_destroy : Option Block → M ℤ
block_destroy none = pure minus_one
block_destroy (some b) = do free_ptr b.data_; free; pure (pos 0)
