-- ===== src/Tests/Clients.antt =====
-- The requests of a client.
use amazon_dynamo_db.Prelude.{◌<◌, ◌≡◌, pos, some, [], ◌∷◌, arith, int_limit, length}
use amazon_dynamo_db.Memory.{ok}
use amazon_dynamo_db.Memory.Spend.{spend}
use amazon_dynamo_db.Strings.{Bytes, strcmp}
use amazon_dynamo_db.Block.Laws.{block_of}
use amazon_dynamo_db.Entry.Laws.{entry_of}
use amazon_dynamo_db.Assoc.{find, insert}
use amazon_dynamo_db.Table.Hash.{home, char_sum}
use amazon_dynamo_db.Table.Buckets.{table_of, view, put, del, total}
use amazon_dynamo_db.Table.Keys.Laws.{all_keys, scratch, all_scratch}
use amazon_dynamo_db.Table.Listing.{all_pairs}
use amazon_dynamo_db.Messages.{StatisticsT}
use amazon_dynamo_db.Skeleton.Stats.Laws.{counts}
use amazon_dynamo_db.Stub.{rtable_put, rtable_get, rtable_del, rtable_size}
use amazon_dynamo_db.Stub.Server.{Server, running, server_link}
use amazon_dynamo_db.Stub.Remote.{
  rtable_put-put, rtable_get-view, rtable_del-del, rtable_size-total,
}
use amazon_dynamo_db.Stub.Listing.{rtable_get_keys, rtable_get_table, rtable_stats}
use amazon_dynamo_db.Stub.Listing.Laws.{
  rtable_get_keys-all_keys, rtable_get_table-all_pairs, rtable_stats-stats, borrow_table,
  borrow_table-balance,
}
use amazon_dynamo_db.Tests.Fixtures.{
  plenty, plenty-IsAmple, key_a, key_b, seven, key_a-IsKey, key_b-IsKey, stocked, stocked-IsTable,
}

abbrev pub busy : StatisticsT
busy = counts 3 5 1

abbrev pub server : Server
server = running busy (some (table_of stocked)) plenty

rtable_put-put_test :
    rtable_put (some server_link) (some (entry_of (key_b, seven))) server plenty
    ≡ ok (
      (pos 0, running busy (some (table_of (put stocked key_b seven))) (spend 6 3 plenty)),
      spend 2 2 plenty,
    )
unfolding home char_sum insert find strcmp total
rtable_put-put_test =
    rtable_put-put stocked-IsTable busy plenty-IsAmple plenty-IsAmple key_b seven key_b-IsKey
      (omega arith, omega arith) (omega arith)

pub stored_short : (v : Bytes) → view stocked key_a ≡ some v → length v < int_limit
unfolding home char_sum insert find strcmp
stored_short v e = ground (arith, e)

rtable_get-view_test :
    rtable_get (some server_link) (some key_a) server plenty
    ≡ ok (
      (some (block_of seven), running busy (some (table_of stocked)) (spend 3 2 plenty)),
      spend 5 3 plenty,
    )
unfolding home char_sum insert find strcmp
rtable_get-view_test =
    rtable_get-view stocked-IsTable busy plenty-IsAmple plenty-IsAmple key_a key_a-IsKey
      stored_short

rtable_del-del_test :
    rtable_del (some server_link) (some key_a) server plenty
    ≡ ok (
      (pos 0, running busy (some (table_of (del stocked key_a))) (spend 0 5 plenty)),
      spend 1 1 plenty,
    )
unfolding home char_sum insert find strcmp total
rtable_del-del_test =
    rtable_del-del stocked-IsTable busy plenty-IsAmple plenty-IsAmple key_a key_a-IsKey
      (omega arith)

rtable_size-total_test : rtable_size (some server_link) server plenty ≡ ok ((pos 1, server), plenty)
unfolding home char_sum insert total
rtable_size-total_test =
    rtable_size-total stocked-IsTable busy plenty-IsAmple plenty-IsAmple (omega arith)

rtable_get_keys-all_keys_test :
    rtable_get_keys (some server_link) server plenty
    ≡ ok (
      (some (key_a ∷ []), running busy (some (table_of stocked)) (spend 4 2 plenty)),
      spend 2 0 plenty,
    )
unfolding home char_sum insert total all_keys scratch all_scratch
rtable_get_keys-all_keys_test =
    rtable_get_keys-all_keys stocked-IsTable busy plenty-IsAmple plenty-IsAmple (omega arith)

rtable_get_table-all_pairs_test :
    rtable_get_table (some server_link) server plenty
    ≡ ok (
      (
        some (entry_of (key_a, seven) ∷ []),
        running busy (some (table_of stocked)) (spend 9 5 plenty),
      ),
      spend 7 2 plenty,
    )
unfolding home char_sum insert total all_pairs scratch all_scratch
rtable_get_table-all_pairs_test =
    rtable_get_table-all_pairs stocked-IsTable busy plenty-IsAmple plenty-IsAmple (omega arith)
      (omega arith, tt)

rtable_stats-stats_test :
    rtable_stats (some server_link) server plenty
    ≡ ok ((some busy, running busy (some (table_of stocked)) (spend 1 0 plenty)), spend 1 0 plenty)
rtable_stats-stats_test = rtable_stats-stats stocked-IsTable busy plenty-IsAmple plenty-IsAmple

borrow_table-balance_example : borrow_table server plenty ≡ ok (tt, spend 7 7 plenty)
unfolding home char_sum insert total all_pairs
borrow_table-balance_example =
    borrow_table-balance stocked-IsTable busy plenty-IsAmple plenty-IsAmple (omega arith)
      (omega arith, tt)
