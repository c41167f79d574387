-- ===== src/Tests/Talks.antt =====
-- A client that types commands.
use amazon_dynamo_db.Prelude.{ℕ, ◌≡◌, refl, ap, pos, true, none, some, List, [], ◌∷◌, All, arith}
use amazon_dynamo_db.Strings.{Bytes, strcmp}
use amazon_dynamo_db.Memory.{ok, Memory}
use amazon_dynamo_db.Memory.Spend.{spend}
use amazon_dynamo_db.Table.Buckets.{
  Buckets, table_of, empty, empty-IsTable, view-empty, total-empty,
}
use amazon_dynamo_db.Table.Session.{Map}
use amazon_dynamo_db.Skeleton.{int_of_size}
use amazon_dynamo_db.Skeleton.Stats.Laws.{counts}
use amazon_dynamo_db.Stub.Server.{running, server_link}
use amazon_dynamo_db.Atoi.{atoi, digits, skip_spaces}
use amazon_dynamo_db.Atoi.Decimal.{decimal}
use amazon_dynamo_db.Remote.{Rtable}
use amazon_dynamo_db.Chain.{get_node_id, scan_next, nearer_above}
use amazon_dynamo_db.Chain.Ends.{scan_min, scan_max}
use amazon_dynamo_db.Chain.Neighbours.{node_name, names}
use amazon_dynamo_db.Chain.Watcher.{Environment, push}
use amazon_dynamo_db.Chain.Client.{
  Client, handle_client_connection, refresh_ends, connect_head, refresh_tail, connect_tail,
  reconnect,
}
use amazon_dynamo_db.Commands.{Request, put, get, del, goes_on}
use amazon_dynamo_db.Commands.Lines.{Lacks, IsTyped, IsLine}
use amazon_dynamo_db.Commands.Steps.{IsChat, puts, gets, dels, Represents, typed_lines}
use amazon_dynamo_db.ClientHashtable.{main, session, unconnected}
use amazon_dynamo_db.ClientHashtable.Chats.{transcript, finally, main-Talks}
use amazon_dynamo_db.Tests.Fixtures.{plenty, plenty-IsAmple, key_a, key_a-IsKey}

-- One server, that every connection leads to.
abbrev table_of_server : Rtable
table_of_server = record { server_address = []; server_port = pos 80; sockfd = 3 }

abbrev net : Environment Rtable
net = record {
  zoo_get = λ path. some path;
  unread = [];
  rtable_connect = λ address. some table_of_server;
}

abbrev client : Client Rtable
client = record {
  rtable_head = some table_of_server;
  rtable_tail = some table_of_server;
  min_node = node_name 1;
  max_node = node_name 1;
  closed = [];
}

connects : handle_client_connection net (names (1 ∷ [])) unconnected ≡ ok (pos 0, client)
unfolding handle_client_connection refresh_ends connect_head refresh_tail connect_tail reconnect
    push scan_min scan_max scan_next nearer_above get_node_id decimal strcmp atoi digits skip_spaces
    int_of_size
connects = refl

-- "put a letters", "get a", "del a", "get a"
abbrev letters : Bytes
letters = 108 ∷ 101 ∷ 116 ∷ 116 ∷ 101 ∷ 114 ∷ 115 ∷ []

abbrev requests : List Request
requests = put key_a letters ∷ get (some key_a) ∷ del (some key_a) ∷ get (some key_a) ∷ []

letters-Lacks : Lacks 0 letters
letters-Lacks = (
  omega arith,
  (omega arith, (omega arith, (omega arith, (omega arith, (omega arith, (omega arith, tt)))))),
)

letters-line : Lacks 10 letters
letters-line = (
  omega arith,
  (omega arith, (omega arith, (omega arith, (omega arith, (omega arith, (omega arith, tt)))))),
)

a-IsTyped : IsTyped (get (some key_a))
a-IsTyped = (omega arith, (omega arith, tt))

requests-IsChat : All IsChat requests
requests-IsChat = (
  puts key_a letters (omega arith, (omega arith, tt), (omega arith, tt), omega arith, letters-line)
      key_a-IsKey (refl, letters-Lacks),
  (
    gets key_a a-IsTyped key_a-IsKey,
    (dels key_a a-IsTyped key_a-IsKey, (gets key_a a-IsTyped key_a-IsKey, tt)),
  ),
)

requests-IsLine : All IsLine requests
requests-IsLine = (
  (ground arith, omega arith),
  ((ground arith, omega arith), ((ground arith, omega arith), ((ground arith, omega arith), tt))),
)

abbrev nothing : Map
nothing k = none

empty-Represents : Represents (empty 3) nothing
empty-Represents = record {
  valid = empty-IsTable 3 (omega arith);
  views = λ k. ap (λ g. g k) (view-empty 3);
  texts = λ k text e. absurd (ground (arith, e));
}

main-Talks_example :
    (after : Buckets) × (used : ℕ) × (sm' : Memory) × (main true true net
        (λ r. server_link)
        ([] ∷ [] ∷ [])
        (names (1 ∷ []))
        (typed_lines requests)
        (running (counts 0 0 0) (some (table_of (empty 3))) plenty)
        plenty
      ≡ ok (
        session (
            goes_on
              (transcript requests nothing)
              (running (counts 0 0 0) (some (table_of after)) sm')),
        spend used used plenty,
      ))
    × Represents after (finally requests nothing)
main-Talks_example =
    main-Talks true true net ([] ∷ [] ∷ []) (names (1 ∷ [])) (pos 0) client table_of_server
      table_of_server (counts 0 0 0) requests (empty 3) nothing plenty plenty refl connects
      (refl, refl) empty-Represents requests-IsChat requests-IsLine (plenty-IsAmple, plenty-IsAmple)
      (omega (arith, total-empty 3))
