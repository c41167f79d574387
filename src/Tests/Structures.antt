-- ===== src/Tests/Structures.antt =====
-- Lists, entries and blocks.
use amazon_dynamo_db.Prelude.{ltb, ◌≡◌, refl, pos, negsuc, minus_one, some, [], ◌∷◌, arith}
use amazon_dynamo_db.Memory.{ok}
use amazon_dynamo_db.Memory.Spend.{spend}
use amazon_dynamo_db.Strings.{strcmp}
use amazon_dynamo_db.Block.{block_duplicate}
use amazon_dynamo_db.Block.Laws.{block_of, block_duplicate-copy}
use amazon_dynamo_db.Entry.{entry_compare, entry_duplicate}
use amazon_dynamo_db.Entry.Laws.{entry_of, entry_compare-order_code, entry_duplicate-entry_of}
use amazon_dynamo_db.Assoc.{find, insert, remove, replaces, has_key}
use amazon_dynamo_db.Assoc.Position.{position}
use amazon_dynamo_db.LinkedList.{list_add, list_get, list_remove, list_get_keys, list_destroy}
use amazon_dynamo_db.LinkedList.Refines.{
  list_of, list_add-insert, list_get-find, list_remove-remove,
}
use amazon_dynamo_db.LinkedList.Keys.{list_get_keys-keys_of, list_destroy-nil, list_destroy-cons}
use amazon_dynamo_db.LinkedList.Scarce.{AllOrNothing, list_get_keys-AllOrNothing}
use amazon_dynamo_db.Memory.{Memory}
use amazon_dynamo_db.Block.{Block, block_replace}
use amazon_dynamo_db.Block.Laws.{block_replace-duplicate}
use amazon_dynamo_db.Serialization.{Buffer, key_array_to_buffer, buffer_to_key_array, keys_size}
use amazon_dynamo_db.Serialization.Reading.{packed, buffer_to_key_array-AllOrNothing}
use amazon_dynamo_db.Serialization.RoundTrip.{bytes_of, key_array_to_buffer-read}
use amazon_dynamo_db.Serialization.Bounds.{key_array_to_buffer-overflow}
use amazon_dynamo_db.Memory.{fault, out_of_bounds}
use amazon_dynamo_db.Prelude.{true}
use amazon_dynamo_db.Tests.Fixtures.{plenty, plenty-IsAmple, key_a, key_b, seven, pairs}

list_add-insert_test :
    list_add (some (list_of pairs)) (some (entry_of (key_b, 9 ∷ []))) plenty
    ≡ ok ((pos 0, some (list_of ((key_a, seven) ∷ (key_b, 9 ∷ []) ∷ []))), spend 1 0 plenty)
unfolding insert replaces strcmp
list_add-insert_test = list_add-insert plenty-IsAmple (key_b, 9 ∷ []) pairs (omega arith)

list_get-find_test :
    list_get (some (list_of pairs)) (some key_a) plenty
    ≡ ok (some (0, entry_of (key_a, seven)), plenty)
unfolding find position strcmp
list_get-find_test = list_get-find key_a pairs plenty

list_remove-remove_test :
    list_remove (some (list_of pairs)) (some key_a) plenty
    ≡ ok ((pos 0, some (list_of [])), spend 0 5 plenty)
unfolding remove has_key strcmp
list_remove-remove_test = list_remove-remove key_a pairs plenty (omega arith)

list_get_keys-keys_of_test :
    list_get_keys (some (list_of pairs)) plenty ≡ ok (some (key_a ∷ []), spend 2 0 plenty)
list_get_keys-keys_of_test = list_get_keys-keys_of (key_a, seven) [] plenty-IsAmple (omega arith)

list_destroy-nil_test : list_destroy (some (list_of [])) plenty ≡ ok (minus_one, spend 0 1 plenty)
list_destroy-nil_test = list_destroy-nil plenty

list_destroy-cons_test : list_destroy (some (list_of pairs)) plenty ≡ ok (pos 0, spend 2 8 plenty)
list_destroy-cons_test = list_destroy-cons (key_a, seven) [] plenty-IsAmple (omega arith)

entry_compare-order_code_test :
    entry_compare (some (entry_of (key_a, seven))) (some (entry_of (key_b, seven))) plenty
    ≡ ok (negsuc 0, plenty)
unfolding strcmp
entry_compare-order_code_test = entry_compare-order_code (key_a, seven) (key_b, seven) plenty

entry_duplicate-entry_of_test :
    entry_duplicate (some (entry_of (key_a, seven))) plenty
    ≡ ok (some (entry_of (key_a, seven)), spend 4 0 plenty)
entry_duplicate-entry_of_test = entry_duplicate-entry_of plenty-IsAmple key_a 7 []

block_duplicate-copy_test :
    block_duplicate (some (block_of seven)) plenty ≡ ok (some (block_of seven), spend 2 0 plenty)
block_duplicate-copy_test = block_duplicate-copy plenty-IsAmple seven (omega arith)

-- Two requests are granted and no more.
abbrev scarce : Memory
scarce = record { grants = λ i n. ltb i 2; calls = 0; allocated = 0; freed = 0 }

list_get_keys-AllOrNothing_test :
    AllOrNothing
      (key_a ∷ key_b ∷ [])
      3
      0
      scarce
      (list_get_keys (some (list_of ((key_a, seven) ∷ (key_b, seven) ∷ []))) scarce)
list_get_keys-AllOrNothing_test =
    list_get_keys-AllOrNothing (key_a, seven) ((key_b, seven) ∷ []) scarce (omega arith)

abbrev nine : Block
nine = block_of (9 ∷ 9 ∷ [])

block_replace-duplicate_test :
    (block_replace (some nine) (pos 1) (some seven) ≡ (pos 0, some (block_of seven)))
    × (block_duplicate (block_replace (some nine) (pos 1) (some seven)).1 plenty
        ≡ ok (some (block_of seven), spend 2 0 plenty))
block_replace-duplicate_test = block_replace-duplicate plenty-IsAmple nine seven (omega arith)

key_array_to_buffer-overflow_example :
    key_array_to_buffer (λ i. 0) (some (key_a ∷ (98 ∷ 98 ∷ []) ∷ [])) true plenty
    ≡ fault out_of_bounds
unfolding keys_size
key_array_to_buffer-overflow_example =
    key_array_to_buffer-overflow (λ i. 0) (key_a ∷ []) (98 ∷ 98 ∷ []) plenty-IsAmple (omega arith)
      (omega arith) (omega arith, (omega arith, tt))

key_array_to_buffer-read_example :
    (buf : Buffer) × (key_array_to_buffer (λ i. 0) (some (key_a ∷ key_b ∷ [])) true plenty
      ≡ ok ((pos 8, some buf), spend 1 0 plenty))
    × (buffer_to_key_array (some (bytes_of 8 buf)) plenty
        ≡ ok (some (key_a ∷ key_b ∷ []), spend 3 0 plenty))
unfolding keys_size
key_array_to_buffer-read_example =
    key_array_to_buffer-read (λ i. 0) 1 (key_a ∷ key_b ∷ []) (refl, (refl, tt))
      ((omega arith, tt), ((omega arith, tt), tt)) plenty-IsAmple plenty-IsAmple (omega arith)

buffer_to_key_array-AllOrNothing_example :
    AllOrNothing
      (key_a ∷ key_b ∷ [])
      3
      0
      scarce
      (buffer_to_key_array (some (packed (key_a ∷ key_b ∷ []) [])) scarce)
unfolding keys_size
buffer_to_key_array-AllOrNothing_example =
    buffer_to_key_array-AllOrNothing (key_a ∷ key_b ∷ []) []
      ((omega arith, tt), ((omega arith, tt), tt)) (omega arith) scarce
