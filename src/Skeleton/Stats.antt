-- ===== src/Skeleton/Stats.antt =====
-- Start and end of the skeleton of source/server_skeleton.c, and its counters.
pub mod Laws
use amazon_dynamo_db.Prelude.{ℕ, ℤ, pos, minus_one, Option, none, some, if◌then◌else◌}
use amazon_dynamo_db.Memory.{M, pure, malloc, free, int_add, ◌>>=◌, ◌>>◌}
use amazon_dynamo_db.Table.{Table, table_create}
use amazon_dynamo_db.Table.Destroy.{table_destroy}
use amazon_dynamo_db.Messages.{StatisticsT}

-- sizeof(struct statistics_t)
abbrev pub sizeof_stats : ℕ
sizeof_stats = 12

-- The statistics, and the table.
pub server_skeleton_init : ℤ → M (Option StatisticsT × Option Table)
server_skeleton_init n_lists = do
  granted ← malloc sizeof_stats
  if granted
      then (do
        table ← table_create n_lists
        pure (
          some (record { total_ops = pos 0; total_op_time = pos 0; connected_clients = pos 0 }),
          table,
        ))
      else pure (none, none)

pub server_skeleton_destroy : Option Table → M ℤ
server_skeleton_destroy table = do free; table_destroy table

pub increment_clients : StatisticsT → M StatisticsT
increment_clients s = do
  n ← int_add s.connected_clients (pos 1)
  pure (record s { connected_clients = n })

pub decrement_clients : StatisticsT → M StatisticsT
decrement_clients s = do
  n ← int_add s.connected_clients minus_one
  pure (record s { connected_clients = n })

pub increment_time : ℤ → StatisticsT → M StatisticsT
increment_time time s = do n ← int_add s.total_op_time time; pure (record s { total_op_time = n })

pub increment_total_ops : StatisticsT → M StatisticsT
increment_total_ops s = do n ← int_add s.total_ops (pos 1); pure (record s { total_ops = n })

unfoldable pub decrement_total_ops : StatisticsT → M StatisticsT
decrement_total_ops s = do n ← int_add s.total_ops minus_one; pure (record s { total_ops = n })
