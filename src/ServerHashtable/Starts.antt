-- ===== src/ServerHashtable/Starts.antt =====
-- How a server comes to its loop, as the first of the chain or behind another one.
use amazon_dynamo_db.Prelude.{
  ℕ, suc, ◌+◌, ◌*◌, ◌<◌, ◌≡◌, ℤ, pos, minus_one, true, false, some, List, ◌∷◌, All, arith,
  int_limit, length,
}
use amazon_dynamo_db.Memory.{Memory, ok}
use amazon_dynamo_db.Memory.Spend.{IsAmple, IsAmple-spend, spend}
use amazon_dynamo_db.Strings.{Bytes}
use amazon_dynamo_db.Assoc.{same}
use amazon_dynamo_db.Assoc.Sorted.{same_self}
use amazon_dynamo_db.Atoi.{atoi}
use amazon_dynamo_db.Table.{Table}
use amazon_dynamo_db.Table.Buckets.{Buckets, IsTable, table_of, view, total, empty}
use amazon_dynamo_db.Table.Keys.Laws.{all_scratch}
use amazon_dynamo_db.Table.Listing.{all_pairs}
use amazon_dynamo_db.Messages.{StatisticsT}
use amazon_dynamo_db.Skeleton.Stats.Laws.{counts, server_skeleton_init-empty}
use amazon_dynamo_db.Network.{World, Outcome, done}
use amazon_dynamo_db.Stub.Server.{Server, running, server_link}
use amazon_dynamo_db.Remote.{Rtable, rtable_connect}
use amazon_dynamo_db.Remote.Connect.{rtable_disconnect-done}
use amazon_dynamo_db.Chain.{get_previous_server, none_address}
use amazon_dynamo_db.Startup.{listening, short_of, server_network_init}
use amazon_dynamo_db.Replica.Copy.{copy_previous-Replicates}
use amazon_dynamo_db.Listener.{Served}
use amazon_dynamo_db.Listener.Endings.{IsSound, Ends, network_main_loop-Ends}
use amazon_dynamo_db.ServerHashtable.{
  Surroundings, Exit, ran, argument, fill, run_server, after_init, test_server_input, main,
}

-- The server ran its loop with this table, and ended it as the loop ends.
abbrev pub Runs :
    {S A : Type 0} → Surroundings S A → ℕ → StatisticsT → Table → S → Outcome (Exit × S) → Type 0
Runs env fd stats table s run =
    (served : Served) × (w : World) × (w' : World) × (run
      ≡ done (ran stats (some table) served, s) w')
    × (Ends fd w env.arrivals served w')

module _ {S A : Type 0} (env : Surroundings S A) (argv : List Bytes) (s : S) (w : World) (fd : ℕ)
    (buffer : Bytes) (n : ℕ) where
  -- A server with four arguments that starts with a positive number of lists and finds no previous
  -- server comes to its loop with an empty table and counters that are 0, and then takes
  -- connections until it ends in one of the ways of Ends, when server_network_init succeeds, SIGINT
  -- can be handled, every request for memory is granted, and an interrupt finds a valid table whose
  -- entries, and one more, fit an int.
  pub main-first :
      (id : ℤ) (m : Memory)
      → length argv ≡ 4
      → env.handles_sigint ≡ true
      → server_network_init env.setup (short_of (atoi (argument argv 2))) w.memory
        ≡ ok (listening fd id buffer, m)
      → get_previous_server env.zoo_get id env.children ≡ none_address
      → atoi (argument argv 3) ≡ pos (suc n)
      → IsAmple m
      → All IsSound env.arrivals
      → Runs env fd (counts 0 0 0) (table_of (empty (suc n))) s (main env argv s w)
  unfolding main test_server_input after_init run_server fill
  main-first id m four handles started first lists ample sound =
      let w' = record w { memory = spend (n + 4) 0 m } in
      let (served, last, run, ends) =
        network_main_loop-Ends fd w' env.arrivals (IsAmple-spend (n + 4) 0 ample) sound in
      let made = server_skeleton_init-empty n ample in
      (
        served,
        w',
        last,
        ground (arith, four, handles, started, first, lists, made, same_self none_address, run),
        ends,
      )

module _ {A : Type 0} (env : Surroundings Server A) (argv : List Bytes) (w : World) (fd : ℕ)
    (buffer : Bytes) (n : ℕ) where
  -- A server with four arguments that starts with a positive number of lists behind another server
  -- comes to its loop with a valid table that gives for every key what the table of the other
  -- server gives, and then takes connections until it ends in one of the ways of Ends, when
  -- server_network_init succeeds, SIGINT can be handled, the address of the other server is not
  -- "none" and can be connected to, that server answers as server_link does, both servers are
  -- granted every request for memory, the table of the other server is valid, the length of each
  -- value and one more than the entries fit an int, and an interrupt finds a valid table.
  pub main-copies :
      (id : ℤ) (m : Memory) (address : Bytes) (r : Rtable) (connected : World) {bs : Buckets}
      (t : IsTable bs) (stats : StatisticsT) (sm : Memory)
      → (length argv ≡ 4) × (env.handles_sigint ≡ true)
      → server_network_init env.setup (short_of (atoi (argument argv 2))) w.memory
        ≡ ok (listening fd id buffer, m)
      → get_previous_server env.zoo_get id env.children ≡ address
      → same address none_address ≡ false
      → atoi (argument argv 3) ≡ pos (suc n)
      → rtable_connect env.system (some address) (record w { memory = spend (n + 4) 0 m })
        ≡ done (some r) connected
      → env.link r ≡ server_link
      → (IsAmple m) × (IsAmple connected.memory) × (IsAmple sm)
      → total bs + 1 < int_limit
      → All (λ e. length e.1 < int_limit) (all_pairs bs)
      → All IsSound env.arrivals
      → (c : Buckets) × IsTable c
        × (view c ≡ view bs)
        × (a : ℕ) × (f : ℕ) × Runs env fd
            (record (counts 0 0 0) { total_ops = minus_one })
            (table_of c)
            (running stats (some (table_of bs)) (spend a f sm))
            (main env argv (running stats (some (table_of bs)) sm) w)
  unfolding main test_server_input after_init run_server fill
  main-copies id m address r connected {bs} t stats sm (four, handles) started previous other lists
        connects linked (ample, ample', server_ample) room short sound =
      let made = server_skeleton_init-empty n ample in
      let (c, valid, same_view, fewer, a, f, copied) =
        copy_previous-Replicates n t stats ample' server_ample room short in
      let after_copy = record connected { memory = spend a f connected.memory } in
      let (code, left) = rtable_disconnect-done env.system r after_copy in
      let w' = record after_copy {
        closed = r.sockfd ∷ connected.closed;
        memory = spend 0 2 after_copy.memory;
      } in
      let (served, last, run, ends) =
        network_main_loop-Ends fd w' env.arrivals (IsAmple-spend 0 2 (IsAmple-spend a f ample'))
          sound in
      (
        c,
        valid,
        same_view,
        all_scratch bs + 5 * total bs + 2,
        all_scratch bs + 2 * total bs + 1,
        (
          served,
          w',
          last,
          ground (
            arith, four, handles, started, previous, other, lists, made, connects, linked, copied,
            left, run,
          ),
          ends,
        ),
      )
