-- ===== src/Tests/Servers.antt =====
-- Servers that start, and the connections that they take.
use amazon_dynamo_db.Prelude.{
  ℕ, ◌≡◌, ◌++◌, refl, pos, minus_one, some, [], ◌∷◌, All, arith, true, List,
}
use amazon_dynamo_db.Strings.{Bytes, strcmp}
use amazon_dynamo_db.Assoc.{insert, find}
use amazon_dynamo_db.Memory.Spend.{spend}
use amazon_dynamo_db.Table.Hash.{home, char_sum}
use amazon_dynamo_db.Table.Buckets.{Buckets, IsTable, table_of, total, empty, view}
use amazon_dynamo_db.Table.Listing.{all_pairs}
use amazon_dynamo_db.Skeleton.{int_of_size}
use amazon_dynamo_db.Skeleton.Stats.Laws.{counts}
use amazon_dynamo_db.Stub.Server.{Server, running, server_link}
use amazon_dynamo_db.Atoi.{atoi, digits, skip_spaces}
use amazon_dynamo_db.Atoi.Decimal.{decimal}
use amazon_dynamo_db.Remote.Connect.{rtable_connect-decimal}
use amazon_dynamo_db.Chain.{
  get_previous_server, scan_previous, nearer_below, get_node_id, node_path,
}
use amazon_dynamo_db.Chain.Neighbours.{node_name}
use amazon_dynamo_db.Startup.{short_of}
use amazon_dynamo_db.Startup.Outcomes.{all_well, server_network_init-listening}
use amazon_dynamo_db.Listener.{Accepted, connection, interrupt, network_main_loop}
use amazon_dynamo_db.Listener.Endings.{EndsOn, IsSound, network_main_loop-Ends}
use amazon_dynamo_db.ServerHashtable.{Surroundings, main}
use amazon_dynamo_db.ServerHashtable.Starts.{Runs, main-first, main-copies}
use amazon_dynamo_db.Tests.Fixtures.{
  system, world, plenty, plenty-IsAmple, stocked, stocked-IsTable,
}

-- Two clients, and CTRL+C.
abbrev arrivals : List Accepted
arrivals =
    connection 6 true true
    ∷ connection 7 true true
    ∷ interrupt (record { close = true; rwlock_destroy = true; mutex_destroy = true })
        (some (table_of stocked))
    ∷ []

arrivals-IsSound : All IsSound arrivals
unfolding total home insert
arrivals-IsSound = (tt, (tt, ((stocked, refl, stocked-IsTable, omega arith), tt)))

network_main_loop-Ends_example : EndsOn 5 world arrivals (network_main_loop true 5 arrivals world)
network_main_loop-Ends_example =
    network_main_loop-Ends 5 world arrivals plenty-IsAmple arrivals-IsSound

-- "server z 80 3"
abbrev argv : List Bytes
argv = [] ∷ (122 ∷ []) ∷ (56 ∷ 48 ∷ []) ∷ (51 ∷ []) ∷ []

-- Node 2, alone, or behind node 1 at the address "1.2:0080".
abbrev address_port : Bytes
address_port = (49 ∷ 46 ∷ 50 ∷ []) ++ 58 ∷ decimal 4 80

abbrev surroundings : List Bytes → Surroundings Server Bytes
surroundings children = record {
  setup = all_well 5 (node_path (node_name 2));
  system = system;
  zoo_get = λ path. some address_port;
  children = children;
  link = λ r. server_link;
  handles_sigint = true;
  arrivals = arrivals;
}

abbrev other : Server
other = running (counts 3 5 1) (some (table_of stocked)) plenty

second_node : get_node_id (node_name 2) ≡ pos 2
unfolding get_node_id decimal atoi digits skip_spaces int_of_size strcmp
second_node = refl

three_lists : atoi (51 ∷ []) ≡ pos 3
unfolding atoi digits skip_spaces int_of_size
three_lists = refl

main-first_example :
    Runs
      (surroundings [])
      5
      (counts 0 0 0)
      (table_of (empty 3))
      other
      (main (surroundings []) argv other world)
unfolding strcmp decimal scan_previous get_previous_server
main-first_example =
    main-first (surroundings []) argv other world 5 _ 2 _ _ refl refl
      (server_network_init-listening 5 (node_path (node_name 2)) (short_of (atoi (56 ∷ 48 ∷ [])))
        plenty-IsAmple refl)
      refl three_lists (record { granted = λ i n. refl }) arrivals-IsSound

found_first :
    get_previous_server (λ path. some address_port) (get_node_id (node_name 2)) (node_name 1 ∷ [])
    ≡ address_port
unfolding get_previous_server scan_previous nearer_below get_node_id decimal strcmp atoi digits
    skip_spaces int_of_size
found_first = refl

main-copies_example :
    (c : Buckets) × IsTable c
    × (view c ≡ view stocked)
    × (a : ℕ) × (f : ℕ) × Runs
        (surroundings (node_name 1 ∷ []))
        5
        (record (counts 0 0 0) { total_ops = minus_one })
        (table_of c)
        (running (counts 3 5 1) (some (table_of stocked)) (spend a f plenty))
        (main (surroundings (node_name 1 ∷ [])) argv other world)
unfolding strcmp decimal home char_sum insert find total all_pairs
main-copies_example =
    main-copies (surroundings (node_name 1 ∷ [])) argv world 5 _ 2 _ _ address_port _ _
      stocked-IsTable (counts 3 5 1) plenty (refl, refl)
      (server_network_init-listening 5 (node_path (node_name 2)) (short_of (atoi (56 ∷ 48 ∷ [])))
        plenty-IsAmple refl)
      found_first refl three_lists
      (rtable_connect-decimal system (49 ∷ 46 ∷ 50 ∷ []) 3 80 3 (49 ∷ 46 ∷ 50 ∷ []) _
        (record { granted = λ i n. refl }) (omega arith, (omega arith, (omega arith, tt)))
        (omega arith, omega arith) (refl, refl) refl)
      refl (record { granted = λ i n. refl }, record { granted = λ i n. refl }, plenty-IsAmple)
      (omega arith) (omega arith, tt) arrivals-IsSound
