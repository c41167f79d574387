-- ===== src/Replica.antt =====
-- The start of a server in source/server_hashtable.c: its table is filled with the entries of the
-- server before it in the chain.
pub mod Puts
pub mod Copy
use amazon_dynamo_db.Prelude.{Option, none, some, List, [], ◌∷◌}
use amazon_dynamo_db.Memory.{M, pure, deref, ◌>>=◌}
use amazon_dynamo_db.Entry.{Entry}
use amazon_dynamo_db.Table.{Table, table_put}
use amazon_dynamo_db.Messages.{StatisticsT}
use amazon_dynamo_db.Skeleton.Stats.{decrement_total_ops}
use amazon_dynamo_db.Stub.{Link}
use amazon_dynamo_db.Stub.Listing.{rtable_get_table}

-- The `for`: a code that is not 0 is only printed.
put_entries : Option Table → List Entry → M (Option Table)
put_entries table [] = pure table
put_entries table (e ∷ entries) = do
  (_, table') ← table_put table e.key e.value
  put_entries table' entries

count_copy : Option (List Entry) → StatisticsT → M StatisticsT
count_copy none stats = pure stats
count_copy (some entries) stats = decrement_total_ops stats

-- The entries are read from `rtable`, which is NULL where the connection failed, and are not freed.
-- The counter that goes down is this server's own.
pub copy_previous :
    {S : Type 0}
    → Option (Link S)
    → StatisticsT
    → Option Table
    → S
    → M (StatisticsT × Option Table × S)
copy_previous rtable stats table s = do
  (entries, s') ← rtable_get_table rtable s
  stats' ← count_copy entries stats
  es ← deref entries
  table' ← put_entries table es
  pure (stats', table', s')
