-- ===== src/Tests/Buckets.antt =====
-- The operations of a table.
use amazon_dynamo_db.Prelude.{ℕ, ◌+◌, ◌≡◌, pos, minus_one, some, [], ◌∷◌, arith}
use amazon_dynamo_db.Memory.{ok, fault, out_of_bounds}
use amazon_dynamo_db.Memory.Spend.{spend}
use amazon_dynamo_db.Strings.{Bytes, strcmp}
use amazon_dynamo_db.Block.Laws.{block_of}
use amazon_dynamo_db.Assoc.{find, insert}
use amazon_dynamo_db.Table.{
  table_create, table_put, table_get, table_remove, table_size, hash_function,
}
use amazon_dynamo_db.Table.Hash.{home, char_sum, deficit, hash_function-home}
use amazon_dynamo_db.Table.Buckets.{table_of, put, del, total, empty}
use amazon_dynamo_db.Table.Refines.{
  table_get-view, table_remove-del, table_size-total, table_get-high,
}
use amazon_dynamo_db.Table.Put.{table_put-put}
use amazon_dynamo_db.Table.Keys.{table_get_keys}
use amazon_dynamo_db.Table.Keys.Laws.{
  table_create-empty, table_get_keys-all_keys, all_keys, scratch, all_scratch,
}
use amazon_dynamo_db.Table.Destroy.{table_destroy}
use amazon_dynamo_db.Table.Destroy.Laws.{table_destroy-blocks}
use amazon_dynamo_db.Tests.Fixtures.{
  plenty, plenty-IsAmple, key_a, key_b, seven, key_a-IsKey, key_b-IsKey, stocked, stocked-IsTable,
}

table_put-put_test :
    table_put (some (table_of stocked)) (some key_a) (some (block_of (9 ∷ []))) plenty
    ≡ ok ((pos 0, some (table_of (put stocked key_a (9 ∷ [])))), spend 3 3 plenty)
unfolding home char_sum insert find strcmp
table_put-put_test =
    table_put-put stocked-IsTable key_a key_a-IsKey (9 ∷ []) plenty-IsAmple (omega arith)
      (omega arith)

table_get-view_test :
    table_get (some (table_of stocked)) (some key_a) plenty
    ≡ ok (some (block_of seven), spend 2 0 plenty)
unfolding home char_sum insert find strcmp
table_get-view_test = table_get-view stocked-IsTable key_a key_a-IsKey plenty-IsAmple

table_remove-del_test :
    table_remove (some (table_of stocked)) (some key_a) plenty
    ≡ ok ((pos 0, some (table_of (del stocked key_a))), spend 0 5 plenty)
unfolding home char_sum insert find strcmp
table_remove-del_test = table_remove-del stocked-IsTable key_a key_a-IsKey plenty (omega arith)

table_size-total_test : table_size (some (table_of stocked)) plenty ≡ ok (pos 1, plenty)
unfolding home char_sum insert total
table_size-total_test = table_size-total stocked plenty (omega arith)

table_create-empty_test :
    table_create (pos 2) plenty ≡ ok (some (table_of (empty 2)), spend 4 0 plenty)
table_create-empty_test = table_create-empty 1 plenty-IsAmple

table_get_keys-all_keys_test :
    table_get_keys (some (table_of stocked)) plenty ≡ ok (some (key_a ∷ []), spend 4 2 plenty)
unfolding home char_sum insert total all_keys scratch all_scratch
table_get_keys-all_keys_test = table_get_keys-all_keys stocked plenty-IsAmple (omega arith)

table_destroy-blocks_example :
    (a : ℕ) × (table_destroy (some (table_of stocked)) plenty
      ≡ ok (minus_one, spend a (a + 9) plenty))
unfolding home char_sum insert total
table_destroy-blocks_example = table_destroy-blocks stocked-IsTable plenty-IsAmple (omega arith)

-- "é" in UTF-8.
abbrev key_e : Bytes
key_e = 195 ∷ 169 ∷ []

table_get-high_example :
    (table_get (some (table_of (empty 7))) (some key_e) plenty ≡ fault out_of_bounds)
    × (table_remove (some (table_of (empty 7))) (some key_e) plenty ≡ fault out_of_bounds)
unfolding deficit
table_get-high_example =
    table_get-high [] (empty 6) key_e plenty
      ((omega arith, omega arith), ((omega arith, omega arith), tt)) (omega arith) (omega arith)

hash_function-home_test : hash_function (some key_b) (pos 7) plenty ≡ ok (pos 0, plenty)
unfolding home char_sum
hash_function-home_test = hash_function-home key_b 6 plenty key_b-IsKey
