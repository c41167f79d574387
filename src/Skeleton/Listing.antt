-- ===== src/Skeleton/Listing.antt =====
-- The replies of `invoke` that list the whole table, and its statistics.
use amazon_dynamo_db.Prelude.{◌+◌, ◌*◌, ◌<◌, ◌≡◌, pos, some, List, arith, int_limit, length}
use amazon_dynamo_db.Memory.{ok, Memory}
use amazon_dynamo_db.Memory.Spend.{IsAmple, IsAmple-spend, spend, malloc-IsAmple, free-spend}
use amazon_dynamo_db.Strings.{Bytes}
use amazon_dynamo_db.Assoc.{Pairs}
use amazon_dynamo_db.Table.Buckets.{Buckets, IsTable, table_of, total}
use amazon_dynamo_db.Table.Refines.{table_size-total}
use amazon_dynamo_db.Table.Keys.Laws.{
  all_keys, all_scratch, table_get_keys-all_keys, length-all_keys,
}
use amazon_dynamo_db.Table.Listing.{all_pairs, length-all_pairs}
use amazon_dynamo_db.Messages.{StatisticsT, MessageT, message_init}
use amazon_dynamo_db.Messages.Opcode
use amazon_dynamo_db.Messages.CType
use amazon_dynamo_db.Skeleton.{
  invoke, dispatch, when_type, msg_get_keys, reply_keys, msg_get_table, get_table, reply_table,
  msg_get_stats,
}
use amazon_dynamo_db.Skeleton.Entries.Laws.{entries_of, table_entries-all_pairs}
use amazon_dynamo_db.Skeleton.Replies.{IsRequest}

abbrev pub keys_reply : List Bytes → MessageT
keys_reply keys = record message_init {
  opcode = Opcode.getkeys + 1;
  c_type = CType.keys;
  keys = keys;
  n_keys = pos (length keys);
}

abbrev pub table_reply : Pairs → MessageT
table_reply xs = record message_init {
  opcode = Opcode.gettable + 1;
  c_type = CType.table;
  entries = entries_of xs;
  n_entries = pos (length xs);
}

abbrev pub stats_reply : StatisticsT → MessageT
stats_reply stats = record message_init {
  opcode = Opcode.stats + 1;
  c_type = CType.stats;
  stats = some stats;
}

module _ {bs : Buckets} (t : IsTable bs) where
  module _ (stats : StatisticsT) (msg : MessageT) {m : Memory} (ample : IsAmple m) where
    -- A getkeys request is answered by OP_GETKEYS + 1 with all the keys of a valid table, list by
    -- list, and their number, when malloc grants every request and one more than the entries fits
    -- an int.
    pub invoke-getkeys :
        IsRequest msg Opcode.getkeys CType.none
        → total bs + 1 < int_limit
        → invoke stats (some msg) (some (table_of bs)) m
          ≡ ok (
            (pos 0, some (keys_reply (all_keys bs)), some (table_of bs)),
            spend (all_scratch bs + total bs + 1) (all_scratch bs) m,
          )
    unfolding invoke dispatch when_type msg_get_keys reply_keys
    invoke-getkeys request room = ground (
      arith,
      request.0,
      request.1,
      table_get_keys-all_keys bs ample room,
      table_size-total bs (spend (all_scratch bs + total bs + 1) (all_scratch bs) m),
      length-all_keys bs,
    )

    -- A gettable request is answered by OP_GETTABLE + 1 with every entry of a valid table, list by
    -- list, and their number, and every block but those of the reply is freed, when malloc grants
    -- every request and one more than the entries fits an int.
    pub invoke-gettable :
        IsRequest msg Opcode.gettable CType.none
        → total bs + 1 < int_limit
        → invoke stats (some msg) (some (table_of bs)) m
          ≡ ok (
            (pos 0, some (table_reply (all_pairs bs)), some (table_of bs)),
            spend (all_scratch bs + 5 * total bs + 2) (all_scratch bs + 2 * total bs + 1) m,
          )
    unfolding invoke dispatch when_type msg_get_table get_table reply_table
    invoke-gettable request room =
        let a = all_scratch bs + total bs + 1 in
        let f = all_scratch bs in
        let listed = table_entries-all_pairs t (IsAmple-spend a f ample) in
        ground (
          arith,
          request.0,
          request.1,
          table_get_keys-all_keys bs ample room,
          listed,
          free-spend (spend (a + (4 * total bs + 1)) (f + 2 * total bs) m),
          length-all_keys bs,
          length-all_pairs bs,
        )

    -- A stats request is answered by OP_STATS + 1 with a copy of the statistics, in one block, when
    -- malloc grants every request.
    pub invoke-stats :
        IsRequest msg Opcode.stats CType.none
        → invoke stats (some msg) (some (table_of bs)) m
          ≡ ok ((pos 0, some (stats_reply stats), some (table_of bs)), spend 1 0 m)
    unfolding invoke dispatch when_type msg_get_stats
    invoke-stats request = ground (arith, request.0, request.1, malloc-IsAmple 40 ample)
