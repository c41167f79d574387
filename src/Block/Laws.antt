-- ===== src/Block/Laws.antt =====
-- Blocks: what is created, copied and freed.
use amazon_dynamo_db.Prelude.{
  ℤ, ℕ, refl, suc, minus_one, none, ◌<◌, pos, ◌≡◌, some, [], ◌∷◌, length, arith,
}
use amazon_dynamo_db.Memory.{ok, Memory, free_ptr}
use amazon_dynamo_db.Memory.Spend.{
  IsAmple, spend, malloc-IsAmple, free-spend, memcpy-all, IsAmple-spend,
}
use amazon_dynamo_db.Strings.{Bytes}
use amazon_dynamo_db.Block.{
  block_replace, Block, block_create, block_duplicate, copy_data, block_destroy,
}

-- A block whose data are these bytes, all of them.
abbrev pub block_of : Bytes → Block
block_of v = record { datasize = pos (length v); data_ = some v }

pub block_create-block_of :
    {m : Memory} (ample : IsAmple m) (x : ℕ) (v : Bytes)
    → block_create (pos (length (x ∷ v))) (some (x ∷ v)) m
      ≡ ok (some (block_of (x ∷ v)), spend 1 0 m)
unfolding block_create
block_create-block_of ample x v = ground (arith, malloc-IsAmple 16 ample)

module _ {m : Memory} (ample : IsAmple m) where
  pub block_duplicate-block_of :
      (x : ℕ) (v : Bytes)
      → block_duplicate (some (block_of (x ∷ v))) m ≡ ok (some (block_of (x ∷ v)), spend 2 0 m)
  unfolding block_duplicate copy_data
  block_duplicate-block_of x v = ground (
    arith,
    malloc-IsAmple (suc (length v)) ample,
    memcpy-all (spend 1 0 m) (x ∷ v),
    block_create-block_of (IsAmple-spend 1 0 ample) x v,
  )

pub block_destroy-spend :
    (v : Bytes) (m : Memory) → block_destroy (some (block_of v)) m ≡ ok (pos 0, spend 0 2 m)
unfolding block_destroy free_ptr
block_destroy-spend v m = ground (arith, free-spend m, free-spend (spend 0 1 m))

-- A block with data is copied whole.
pub block_duplicate-copy :
    {m : Memory} (ample : IsAmple m) (v : Bytes)
    → 0 < length v
    → block_duplicate (some (block_of v)) m ≡ ok (some (block_of v), spend 2 0 m)
block_duplicate-copy ample [] h = absurd (omega arith)
block_duplicate-copy ample (x ∷ v) h = block_duplicate-block_of ample x v

-- A header is made for data that are not empty.
pub block_create-copy :
    {m : Memory} (ample : IsAmple m) (v : Bytes)
    → 0 < length v
    → block_create (pos (length v)) (some v) m ≡ ok (some (block_of v), spend 1 0 m)
block_create-copy ample [] h = absurd (omega arith)
block_create-copy ample (x ∷ v) h = block_create-block_of ample x v

-- After `block_replace` the block has the new data, and a copy of it is a copy of them.
pub block_replace-duplicate :
    {m : Memory} (ample : IsAmple m) (b : Block) (v : Bytes)
    → 0 < length v
    → (block_replace (some b) (pos (length v)) (some v) ≡ (pos 0, some (block_of v)))
      × (block_duplicate (block_replace (some b) (pos (length v)) (some v)).1 m
          ≡ ok (some (block_of v), spend 2 0 m))
unfolding block_replace
block_replace-duplicate ample b v h =
    let copied = block_duplicate-copy ample v h in (ground arith, ground (arith, copied))

-- A block need not be as long as its data.
pub block_create-long :
    {m : Memory} (ample : IsAmple m) (n : ℕ) (v : Bytes)
    → 0 < n
    → block_create (pos n) (some v) m
      ≡ ok (some (record { datasize = pos n; data_ = some v }), spend 1 0 m)
unfolding block_create
block_create-long ample n v h = ground (arith, malloc-IsAmple 16 ample)

pub block_destroy-data :
    (n : ℤ) (v : Bytes) (m : Memory)
    → block_destroy (some (record { datasize = n; data_ = some v })) m ≡ ok (pos 0, spend 0 2 m)
unfolding block_destroy free_ptr
block_destroy-data n v m = ground (arith, free-spend m, free-spend (spend 0 1 m))

pub block_destroy-null : (m : Memory) → block_destroy none m ≡ ok (minus_one, m)
unfolding block_destroy
block_destroy-null m = refl
