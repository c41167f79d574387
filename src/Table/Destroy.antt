-- ===== src/Table/Destroy.antt =====
-- `table_destroy` of source/table.c.
pub mod Emptied
pub mod Laws
use amazon_dynamo_db.Prelude.{
  ℕ, zero, suc, ℤ, pos, negsuc, minus_one, ◌==ℤ◌, Option, none, some, if◌then◌else◌, List, [], ◌∷◌,
}
use amazon_dynamo_db.Memory.{M, pure, crash, out_of_bounds, free, ◌>>=◌, ◌>>◌}
use amazon_dynamo_db.Strings.{Bytes}
use amazon_dynamo_db.LinkedList.{LinkedList, list_destroy}
use amazon_dynamo_db.Table.{Table, rounds, table_remove}
use amazon_dynamo_db.Table.Keys.{table_get_keys, table_free_keys}

-- The `while`: the code of the last removal, and the table.
remove_all : Option Table → List Bytes → ℤ → M (ℤ × Option Table)
remove_all t [] code = pure (code, t)
remove_all t (key ∷ keys) code = do
  (code', t') ← table_remove t (some key)
  remove_all t' keys code'

-- The `for` over the lists: `n` rounds are left.
destroy_lists : ℕ → List (Option LinkedList) → ℤ → M ℤ
destroy_lists zero lists code = pure code
destroy_lists (suc n) [] code = crash out_of_bounds
destroy_lists (suc n) (l ∷ lists) code = do
  temp ← list_destroy l
  destroy_lists n lists (if temp ==ℤ minus_one then minus_one else code)

destroy_emptied : List Bytes → ℤ × Option Table → M ℤ
destroy_emptied keys (code, none) = pure code
destroy_emptied keys (code, some t) = do
  code' ← destroy_lists (rounds t.size) t.lists code
  free
  free
  _ ← table_free_keys (some keys)
  pure code'

destroy_with_keys : Table → Option (List Bytes) → M ℤ
destroy_with_keys t none = pure minus_one
destroy_with_keys t (some keys) = do
  emptied ← remove_all (some t) keys (pos 0)
  destroy_emptied keys emptied

pub table_destroy : Option Table → M ℤ
table_destroy none = pure minus_one
table_destroy (some t) = do keys ← table_get_keys (some t); destroy_with_keys t keys
