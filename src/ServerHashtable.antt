-- ===== src/ServerHashtable.antt =====
-- `main` of source/server_hashtable.c, from its arguments to the loop that takes connections.
pub mod Starts
use mathlib.Core.Option
use amazon_dynamo_db.Prelude.{
  ℕ, ℤ, pos, negsuc, minus_one, Bool, Option, none, some, if◌then◌else◌, List, [], ◌==◌, get_or,
  length,
}
use amazon_dynamo_db.Memory.{deref}
use amazon_dynamo_db.Strings.{Bytes}
use amazon_dynamo_db.Assoc.{same}
use amazon_dynamo_db.Atoi.{atoi}
use amazon_dynamo_db.Table.{Table}
use amazon_dynamo_db.Messages.{StatisticsT}
use amazon_dynamo_db.Skeleton.Stats.{server_skeleton_init}
use amazon_dynamo_db.Network.{World, Outcome, done, waiting, crashed, N, pure, lift, ◌>>=◌}
use amazon_dynamo_db.Stub.{Link}
use amazon_dynamo_db.Remote.{System, Rtable, rtable_connect, rtable_disconnect}
use amazon_dynamo_db.Chain.{get_previous_server, none_address}
use amazon_dynamo_db.Startup.{
  Setup, Started, listening, failed, exited, short_of, server_network_init,
}
use amazon_dynamo_db.Replica.{copy_previous}
use amazon_dynamo_db.Listener.{Accepted, Served, network_main_loop}

-- What the system and ZooKeeper answer, and the link that a connection to another server is.
pub record Surroundings (S A : Type 0) : Type 0 where
  pub setup : Setup
  pub system : System A
  pub zoo_get : Bytes → Option Bytes
  pub children : List Bytes
  pub link : Rtable → Link S
  pub handles_sigint : Bool
  pub arrivals : List Accepted

-- An early return, the end of the process in `server_network_init`, or the loop, with the statistics and
-- the table that it began with.
pub data Exit : Type 0 where
  returned : ℤ → Exit
  gone : Exit
  ran : StatisticsT → Option Table → Served → Exit

test_server_input : List Bytes → ℤ
test_server_input argv = if length argv == 4 then pos 0 else minus_one

-- `argv[i]`
abbrev pub argument : List Bytes → ℕ → Bytes
argument argv i = get_or argv i []

module _ {S A : Type 0} (env : Surroundings S A) where
  -- The table of the previous server, unless there is none.
  fill : Bytes → StatisticsT → Option Table → S → N (StatisticsT × Option Table × S)
  fill previous_server stats table s =
      if same previous_server none_address then pure (stats, table, s) else (do
        rtable ← rtable_connect env.system (some previous_server)
        filled ← lift (copy_previous (Option.map env.link rtable) stats table s)
        _ ← rtable_disconnect env.system rtable
        pure filled)

  -- A code of `network_main_loop`, -1, is returned.
  run_server : ℕ → Bytes → Option StatisticsT → Option Table → S → N (Exit × S)
  run_server sockfd previous_server counters none s = pure (returned minus_one, s)
  run_server sockfd previous_server counters (some t) s = do
    stats ← lift (deref counters)
    (stats', table, s') ← fill previous_server stats (some t) s
    served ← network_main_loop env.handles_sigint sockfd env.arrivals
    pure (ran stats' table served, s')

  after_init : List Bytes → S → Started → N (Exit × S)
  after_init argv s (failed closed) = pure (returned minus_one, s)
  after_init argv s exited = pure (gone, s)
  after_init argv s (listening sockfd node_id buffer) = do
    let previous_server = get_previous_server env.zoo_get node_id env.children
    (counters, table) ← lift (server_skeleton_init (atoi (argument argv 3)))
    run_server sockfd previous_server counters table s

  pub main : List Bytes → S → N (Exit × S)
  main argv s = elim (test_server_input argv) [
    | negsuc k ↦ pure (returned minus_one, s)
    | pos k ↦ do
      started ← lift (server_network_init env.setup (short_of (atoi (argument argv 2))))
      after_init argv s started
  ]
