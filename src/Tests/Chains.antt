-- ===== src/Tests/Chains.antt =====
-- Servers in a chain, and a new one that takes over the table.
use amazon_dynamo_db.Prelude.{ℕ, ◌≡◌, inl, inr, refl, pos, some, none, List, [], ◌∷◌, arith, true}
use amazon_dynamo_db.Strings.{Bytes, strcmp}
use amazon_dynamo_db.Assoc.{insert, find}
use amazon_dynamo_db.Memory.{ok}
use amazon_dynamo_db.Table.Hash.{home, char_sum}
use amazon_dynamo_db.Table.Buckets.{total}
use amazon_dynamo_db.Table.Listing.{all_pairs}
use amazon_dynamo_db.Skeleton.{int_of_size}
use amazon_dynamo_db.Skeleton.Stats.Laws.{counts}
use amazon_dynamo_db.Stub.Server.{server_link}
use amazon_dynamo_db.Replica.Copy.{Replicates, copy_previous-Replicates}
use amazon_dynamo_db.Atoi.{atoi, digits, skip_spaces}
use amazon_dynamo_db.Atoi.Decimal.{decimal}
use amazon_dynamo_db.Chain.{
  get_node_id, scan_next, scan_previous, no_next, no_previous, nearer_above, get_previous_server,
  none_address, node_path,
}
use amazon_dynamo_db.Chain.Neighbours.{
  node_name, names, scan_previous-scan_next, get_previous_server-none, scan_next-limit,
}
use amazon_dynamo_db.Chain.Watcher.{
  NextNode, Environment, IsLinked, handle_next_server, handle_next_server-IsLinked, child_watcher,
  child_watcher-IsLinked, next_of, push, connected, disconnect_next, buffer_of,
}
use amazon_dynamo_db.Chain.Ends.{scan_min, scan_max, IsLowest, IsHighest}
use amazon_dynamo_db.Chain.Client.{
  Client, first_min, first_max, refresh_ends, connect_head, refresh_tail, connect_tail, reconnect,
  handle_client_connection, handle_client_connection-ends, renewed, length_left,
}
use amazon_dynamo_db.Tests.Fixtures.{plenty, plenty-IsAmple, stocked, stocked-IsTable}

copy_previous-Replicates_test : Replicates server_link 3 stocked (counts 3 5 1) plenty plenty
unfolding home char_sum insert find strcmp total all_pairs
copy_previous-Replicates_test =
    copy_previous-Replicates 2 stocked-IsTable (counts 3 5 1) plenty-IsAmple plenty-IsAmple
      (omega arith) (omega arith, tt)

abbrev chain : List ℕ
chain = 1 ∷ 7 ∷ 4 ∷ []

next_of_one : scan_next (pos 1) (names chain) no_next ≡ node_name 4
unfolding scan_next nearer_above get_node_id decimal strcmp atoi digits skip_spaces int_of_size
next_of_one = refl

scan_previous-scan_next_example : scan_previous (pos 4) (names chain) no_previous ≡ node_name 1
scan_previous-scan_next_example =
    scan_previous-scan_next chain 1 4 (omega arith, (omega arith, (omega arith, tt))) (inl refl)
      (omega arith, omega arith) (omega arith) next_of_one

get_previous_server-none_test :
    get_previous_server (λ path. some (b'x' ∷ [])) (pos 1) (names (0 ∷ 1 ∷ [])) ≡ none_address
get_previous_server-none_test =
    get_previous_server-none (λ path. some (b'x' ∷ [])) (0 ∷ 1 ∷ []) 1 (omega arith)
      (inl refl, (inr (omega arith, omega arith), tt))

scan_next-limit_test : scan_next (pos 1) (names (1 ∷ 1410065407 ∷ [])) no_next ≡ no_next
scan_next-limit_test =
    scan_next-limit (1 ∷ 1410065407 ∷ []) 1 (inl (omega arith), (inr (omega arith), tt))
      (omega arith, (omega arith, tt))

-- The data of every node is its path, and connections are known by their address.
abbrev net : Environment Bytes
net = record { zoo_get = λ path. some path; unread = []; rtable_connect = λ address. some address }

abbrev unset : NextNode Bytes
unset = record { next_exists = true; next_znode_id = none; next_znode_rtable = none; closed = [] }

abbrev alone : NextNode Bytes
alone = handle_next_server unset

abbrev followed : NextNode Bytes
followed = record {
  next_exists = true;
  next_znode_id = some (node_name 4);
  next_znode_rtable = some (node_path (node_name 4));
  closed = [];
}

-- The server after node 1 is now node 4.
new_follower : child_watcher net (pos 1) (names chain) alone ≡ some followed
unfolding child_watcher connected disconnect_next buffer_of handle_next_server scan_next
    nearer_above get_node_id decimal strcmp atoi digits skip_spaces int_of_size
new_follower = refl

child_watcher-IsLinked_example :
    IsLinked followed
    × (followed.next_znode_id ≡ next_of (scan_next (pos 1) (names chain) no_next))
    × (followed.closed ≡ [])
unfolding handle_next_server
child_watcher-IsLinked_example =
    child_watcher-IsLinked net (pos 1) (names chain) alone (handle_next_server-IsLinked unset)
      new_follower

abbrev new_client : Client Bytes
new_client = record {
  rtable_head = none;
  rtable_tail = none;
  min_node = first_min;
  max_node = first_max;
  closed = [];
}

abbrev connected_client : Client Bytes
connected_client = record {
  rtable_head = some (node_path (node_name 1));
  rtable_tail = some (node_path (node_name 7));
  min_node = node_name 1;
  max_node = node_name 7;
  closed = [];
}

both_ends : handle_client_connection net (names chain) new_client ≡ ok (pos 0, connected_client)
unfolding handle_client_connection refresh_ends connect_head refresh_tail connect_tail reconnect
    push scan_min scan_max scan_next nearer_above get_node_id decimal strcmp atoi digits skip_spaces
    int_of_size
both_ends = refl

handle_client_connection-ends_example :
    IsLowest (node_name 1) (names chain)
    × IsHighest (node_name 7) (names chain)
    × (connected_client.rtable_head ≡ renewed net 512 first_min (node_name 1) none)
    × (connected_client.rtable_tail
        ≡ renewed net (length_left net first_min (node_name 1)) first_max (node_name 7) none)
handle_client_connection-ends_example =
    handle_client_connection-ends net (node_name 1) (names (7 ∷ 4 ∷ [])) new_client connected_client
      both_ends
