-- ===== src/Entry/Laws.antt =====
-- Entries: what they cost, and how they compare.
use amazon_dynamo_db.Prelude.{ℕ, ◌+◌, ℤ, pos, negsuc, ◌≡◌, some, ◌∷◌, length, arith, Ordering}
use amazon_dynamo_db.Memory.{ok, Memory, free_ptr}
use amazon_dynamo_db.Memory.Spend.{IsAmple, spend, malloc-IsAmple, free-spend, IsAmple-spend}
use amazon_dynamo_db.Strings.{Bytes, strcmp}
use amazon_dynamo_db.Block.{Block}
use amazon_dynamo_db.Block.Laws.{
  block_destroy-data, block_of, block_destroy-spend, block_duplicate-block_of,
}
use amazon_dynamo_db.Entry.{
  Entry, entry_create, entry_compare, entry_duplicate, duplicate_fields, entry_replace,
  entry_destroy, destroy_fields,
}

-- The entry that stores these bytes under this key.
abbrev pub entry_of : Bytes × Bytes → Entry
entry_of kv = record { key = some kv.0; value = some (block_of kv.1) }

-- The code of an order: -1, 0 or 1.
abbrev pub order_code : Ordering → ℤ
order_code Ordering.lt = negsuc 0
order_code Ordering.eq = pos 0
order_code Ordering.gt = pos 1

pub entry_compare-order_code :
    (a b : Bytes × Bytes) (m : Memory)
    → entry_compare (some (entry_of a)) (some (entry_of b)) m ≡ ok (order_code (strcmp a.0 b.0), m)
unfolding entry_compare
entry_compare-order_code a b m = ground arith

pub entry_destroy-spend :
    (e : Bytes × Bytes) (m : Memory) → entry_destroy (some (entry_of e)) m ≡ ok (pos 0, spend 0 4 m)
unfolding entry_destroy destroy_fields
entry_destroy-spend e m =
    ground (arith, free-spend m, block_destroy-spend e.1 (spend 0 1 m), free-spend (spend 0 3 m))

pub entry_replace-spend :
    (e : Bytes × Bytes) (k v : Bytes) (m : Memory)
    → entry_replace (some (entry_of e)) (some k) (some (block_of v)) m
      ≡ ok ((pos 0, some (entry_of (k, v))), spend 0 3 m)
unfolding entry_replace free_ptr
entry_replace-spend e k v m = ground (arith, block_destroy-spend e.1 m, free-spend (spend 0 2 m))

module _ {m : Memory} (ample : IsAmple m) (k : Bytes) where
  pub entry_create-entry_of :
      (v : Bytes)
      → entry_create (some k) (some (block_of v)) m ≡ ok (some (entry_of (k, v)), spend 1 0 m)
  unfolding entry_create
  entry_create-entry_of v = ground (arith, malloc-IsAmple 16 ample)

  pub entry_duplicate-entry_of :
      (x : ℕ) (v : Bytes)
      → entry_duplicate (some (entry_of (k, x ∷ v))) m
        ≡ ok (some (entry_of (k, x ∷ v)), spend 4 0 m)
  unfolding entry_duplicate duplicate_fields
  entry_duplicate-entry_of x v = ground (
    arith,
    malloc-IsAmple 16 ample,
    block_duplicate-block_of (IsAmple-spend 1 0 ample) x v,
    malloc-IsAmple (length k + 1) (IsAmple-spend 3 0 ample),
  )

pub entry_create-pair :
    {m : Memory} (ample : IsAmple m) (k : Bytes) (b : Block)
    → entry_create (some k) (some b) m
      ≡ ok (some (record { key = some k; value = some b }), spend 1 0 m)
unfolding entry_create
entry_create-pair ample k b = ground (arith, malloc-IsAmple 16 ample)

pub entry_destroy-pair :
    (k v : Bytes) (n : ℤ) (m : Memory)
    → entry_destroy
        (some (record { key = some k; value = some (record { datasize = n; data_ = some v }) }))
        m
      ≡ ok (pos 0, spend 0 4 m)
unfolding entry_destroy destroy_fields
entry_destroy-pair k v n m =
    ground (arith, free-spend m, block_destroy-data n v (spend 0 1 m), free-spend (spend 0 3 m))
