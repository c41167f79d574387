-- ===== src/Tests/Requests.antt =====
-- The requests of a server.
use amazon_dynamo_db.Prelude.{List, [], ◌∷◌, ℕ, ◌+◌, ◌≡◌, pos, minus_one, some, arith, refl}
use amazon_dynamo_db.Memory.{ok, fault, null_pointer}
use amazon_dynamo_db.Memory.Spend.{spend}
use amazon_dynamo_db.Strings.{Bytes, strcmp}
use amazon_dynamo_db.Assoc.{find, insert}
use amazon_dynamo_db.Table.Hash.{home, char_sum}
use amazon_dynamo_db.Table.Buckets.{empty, table_of, put, del, total}
use amazon_dynamo_db.Messages.{StatisticsT, MessageT, message_init}
use amazon_dynamo_db.Messages.Opcode
use amazon_dynamo_db.Messages.CType
use amazon_dynamo_db.Skeleton.{invoke, error_message}
use amazon_dynamo_db.Skeleton.Replies.{
  done, value_reply, size_reply, invoke-put, invoke-get, invoke-del, invoke-size,
}
use amazon_dynamo_db.Skeleton.Errors.{invoke-error, invoke-put_null}
use amazon_dynamo_db.Skeleton.Listing.{
  keys_reply, table_reply, stats_reply, invoke-getkeys, invoke-gettable, invoke-stats,
}
use amazon_dynamo_db.Skeleton.Stats.{server_skeleton_init, server_skeleton_destroy}
use amazon_dynamo_db.Skeleton.Stats.Laws.{
  counts, Event, joined, worked, undone, left, count_all, count_all-tally, tally, IsInRange,
  server_skeleton_init-empty, server_skeleton_destroy-blocks,
}
use amazon_dynamo_db.Table.Keys.Laws.{all_keys, scratch, all_scratch}
use amazon_dynamo_db.Table.Listing.{all_pairs}
use amazon_dynamo_db.Tests.Fixtures.{
  plenty, plenty-IsAmple, key_a, key_b, seven, key_a-IsKey, key_b-IsKey, stocked, stocked-IsTable,
}

abbrev no_stats : StatisticsT
no_stats = record { total_ops = pos 0; total_op_time = pos 0; connected_clients = pos 0 }

abbrev put_request : MessageT
put_request = record message_init {
  opcode = Opcode.put;
  c_type = CType.entry;
  entry = some (record { key = key_b; value = seven });
}

abbrev key_request : ℕ → Bytes → MessageT
key_request opcode key = record message_init { opcode = opcode; c_type = CType.key; key = key }

abbrev size_request : MessageT
size_request = record message_init { opcode = Opcode.size; c_type = CType.none }

-- A get that comes with an entry.
abbrev mixed_up : MessageT
mixed_up = record message_init { opcode = Opcode.get; c_type = CType.entry }

abbrev bare_put : MessageT
bare_put = record message_init { opcode = Opcode.put; c_type = CType.entry }

invoke-put_example :
    invoke no_stats (some put_request) (some (table_of stocked)) plenty
    ≡ ok (
      (pos 0, some (done (Opcode.put + 1)), some (table_of (put stocked key_b seven))),
      spend 6 3 plenty,
    )
unfolding home char_sum insert find strcmp total
invoke-put_example =
    invoke-put stocked-IsTable no_stats put_request plenty-IsAmple key_b seven (refl, refl) refl
      key_b-IsKey (omega arith, omega arith) (omega arith)

invoke-get_test :
    invoke no_stats (some (key_request Opcode.get key_a)) (some (table_of stocked)) plenty
    ≡ ok ((pos 0, some (value_reply seven), some (table_of stocked)), spend 3 2 plenty)
unfolding home char_sum insert find strcmp
invoke-get_test =
    invoke-get stocked-IsTable no_stats (key_request Opcode.get key_a) plenty-IsAmple (refl, refl)
      key_a-IsKey

invoke-del_test :
    invoke no_stats (some (key_request Opcode.del key_a)) (some (table_of stocked)) plenty
    ≡ ok (
      (pos 0, some (done (Opcode.del + 1)), some (table_of (del stocked key_a))),
      spend 0 5 plenty,
    )
unfolding home char_sum insert find strcmp total
invoke-del_test =
    invoke-del stocked-IsTable no_stats (key_request Opcode.del key_a) plenty-IsAmple (refl, refl)
      key_a-IsKey (omega arith)

invoke-size_test :
    invoke no_stats (some size_request) (some (table_of stocked)) plenty
    ≡ ok ((pos 0, some (size_reply 1), some (table_of stocked)), plenty)
unfolding home char_sum insert total
invoke-size_test =
    invoke-size stocked-IsTable no_stats size_request plenty-IsAmple (refl, refl) (omega arith)

invoke-error_test :
    invoke no_stats (some mixed_up) (some (table_of stocked)) plenty
    ≡ ok ((minus_one, some error_message, some (table_of stocked)), plenty)
invoke-error_test = invoke-error no_stats mixed_up (table_of stocked) plenty refl

invoke-put_null_test :
    invoke no_stats (some bare_put) (some (table_of stocked)) plenty ≡ fault null_pointer
invoke-put_null_test = invoke-put_null no_stats bare_put (table_of stocked) plenty refl refl refl

abbrev bare_request : ℕ → MessageT
bare_request opcode = record message_init { opcode = opcode; c_type = CType.none }

invoke-getkeys_test :
    invoke no_stats (some (bare_request Opcode.getkeys)) (some (table_of stocked)) plenty
    ≡ ok ((pos 0, some (keys_reply (key_a ∷ [])), some (table_of stocked)), spend 4 2 plenty)
unfolding home char_sum insert total all_keys scratch all_scratch
invoke-getkeys_test =
    invoke-getkeys stocked-IsTable no_stats (bare_request Opcode.getkeys) plenty-IsAmple
      (refl, refl) (omega arith)

invoke-gettable_test :
    invoke no_stats (some (bare_request Opcode.gettable)) (some (table_of stocked)) plenty
    ≡ ok (
      (pos 0, some (table_reply ((key_a, seven) ∷ [])), some (table_of stocked)),
      spend 9 5 plenty,
    )
unfolding home char_sum insert total all_pairs scratch all_scratch
invoke-gettable_test =
    invoke-gettable stocked-IsTable no_stats (bare_request Opcode.gettable) plenty-IsAmple
      (refl, refl) (omega arith)

invoke-stats_test :
    invoke (counts 3 5 1) (some (bare_request Opcode.stats)) (some (table_of stocked)) plenty
    ≡ ok ((pos 0, some (stats_reply (counts 3 5 1)), some (table_of stocked)), spend 1 0 plenty)
invoke-stats_test =
    invoke-stats stocked-IsTable (counts 3 5 1) (bare_request Opcode.stats) plenty-IsAmple
      (refl, refl)

server_skeleton_init-empty_test :
    server_skeleton_init (pos 2) plenty
    ≡ ok ((some (counts 0 0 0), some (table_of (empty 2))), spend 5 0 plenty)
server_skeleton_init-empty_test = server_skeleton_init-empty 1 plenty-IsAmple

server_skeleton_destroy-blocks_test :
    (a : ℕ) × (server_skeleton_destroy (some (table_of stocked)) plenty
      ≡ ok (minus_one, spend a (a + 9 + 1) plenty))
unfolding home char_sum insert total
server_skeleton_destroy-blocks_test =
    server_skeleton_destroy-blocks stocked-IsTable plenty-IsAmple (omega arith)

abbrev events : List Event
events = joined ∷ joined ∷ worked 5 ∷ worked 2 ∷ undone ∷ left ∷ []

events-IsInRange : IsInRange events 0 0 0
unfolding IsInRange
events-IsInRange = (
  omega arith,
  (
    omega arith,
    (
      omega arith,
      omega arith,
      (omega arith, omega arith, (omega arith, omega arith, (omega arith, omega arith, tt))),
    ),
  ),
)

count_all-tally_test : count_all events (counts 0 0 0) plenty ≡ ok (counts 1 7 1, plenty)
unfolding tally
count_all-tally_test = count_all-tally events 0 0 0 plenty events-IsInRange
