-- ===== src/Tests/Terminals.antt =====
-- The terminal of a client, and its connections.
use amazon_dynamo_db.Prelude.{◌≡◌, refl, pos, some, none, [], ◌∷◌, ◌++◌, arith, true, false}
use amazon_dynamo_db.Strings.{Bytes, strcmp}
use amazon_dynamo_db.Assoc.{insert, find}
use amazon_dynamo_db.Memory.{ok}
use amazon_dynamo_db.Memory.Spend.{spend}
use amazon_dynamo_db.Table.Hash.{home, char_sum}
use amazon_dynamo_db.Table.Buckets.{table_of, total, put}
use amazon_dynamo_db.Skeleton.Stats.Laws.{counts}
use amazon_dynamo_db.Stub.Server.{Server, running, server_link}
use amazon_dynamo_db.Network.{done}
use amazon_dynamo_db.Atoi.Decimal.{decimal}
use amazon_dynamo_db.Remote.{rtable_connect}
use amazon_dynamo_db.Remote.Connect.{
  AllOrNothing, rtable_connect-AllOrNothing, rtable_connect-decimal,
}
use amazon_dynamo_db.Commands.{Request, parse, read_lines, put_command, stored}
use amazon_dynamo_db.Commands.Lines.{parse-print}
use amazon_dynamo_db.Commands.Effects.{put_command-cut}
use amazon_dynamo_db.Startup.{published, short_of, ip_port, Setup, server_network_init}
use amazon_dynamo_db.Startup.Outcomes.{EndsTidy, server_network_init-EndsTidy}
use amazon_dynamo_db.Chain.{node_path}
use amazon_dynamo_db.Chain.Neighbours.{node_name}
use amazon_dynamo_db.Startup.Address.{published-connect, published-refused}
use amazon_dynamo_db.Tests.Fixtures.{
  system, world, plenty, plenty-IsAmple, key_a, key_b, key_b-IsKey, stocked, stocked-IsTable,
}

-- "put a 7 7"
abbrev typed : Request
typed = Request.put key_a (55 ∷ 32 ∷ 55 ∷ [])

abbrev typed_line : Bytes
typed_line = 112 ∷ 117 ∷ 116 ∷ 32 ∷ 97 ∷ 32 ∷ 55 ∷ 32 ∷ 55 ∷ 10 ∷ []

parse-print_example :
    (read_lines (typed_line ++ 113 ∷ 10 ∷ []) ≡ typed_line ∷ read_lines (113 ∷ 10 ∷ []))
    × (parse typed_line ≡ typed)
parse-print_example =
    parse-print typed (113 ∷ 10 ∷ [])
      (
        omega arith,
        (omega arith, tt),
        (omega arith, tt),
        omega arith,
        (omega arith, (omega arith, (omega arith, tt))),
      )
      (ground arith, omega arith)

-- Nine letters, of which eight are stored.
abbrev letters : Bytes
letters = 65 ∷ 66 ∷ 67 ∷ 68 ∷ 69 ∷ 70 ∷ 71 ∷ 72 ∷ 73 ∷ []

abbrev server : Server
server = running (counts 3 5 1) (some (table_of stocked)) plenty

put_command-cut_example :
    put_command (some server_link) none key_b letters server plenty
    ≡ ok (
      (
        stored ∷ [],
        running
            (counts 3 5 1)
            (some (table_of (put stocked key_b (65 ∷ 66 ∷ 67 ∷ 68 ∷ 69 ∷ 70 ∷ 71 ∷ 72 ∷ []))))
            (spend 6 3 plenty),
      ),
      spend 6 6 plenty,
    )
unfolding home char_sum insert find strcmp total
put_command-cut_example =
    put_command-cut stocked-IsTable (counts 3 5 1) plenty-IsAmple plenty-IsAmple none key_b letters
      key_b-IsKey (omega arith) (omega arith)

-- "1.2:0080"
abbrev address_port : Bytes
address_port = 49 ∷ 46 ∷ 50 ∷ 58 ∷ 48 ∷ 48 ∷ 56 ∷ 48 ∷ []

rtable_connect-AllOrNothing_example :
    AllOrNothing system 0 world (rtable_connect system (some address_port) world)
rtable_connect-AllOrNothing_example = rtable_connect-AllOrNothing system address_port world

rtable_connect-decimal_test :
    rtable_connect system (some address_port) world
    ≡ done
        (some (record { server_address = 49 ∷ 46 ∷ 50 ∷ []; server_port = pos 80; sockfd = 3 }))
        (record world { memory = spend 2 0 plenty })
unfolding decimal
rtable_connect-decimal_test =
    rtable_connect-decimal system (49 ∷ 46 ∷ 50 ∷ []) 3 80 3 (49 ∷ 46 ∷ 50 ∷ []) world
      plenty-IsAmple (omega arith, (omega arith, (omega arith, tt))) (omega arith, omega arith)
      (refl, refl) refl

published-connect_example :
    (text : Bytes) × (published (0 ∷ []) (short_of (pos 12345)) plenty ≡ ok (text, plenty))
    × (rtable_connect system (some text) world
        ≡ done
            (some (record { server_address = ip_port; server_port = pos 12345; sockfd = 3 }))
            (record world { memory = spend 2 0 plenty }))
published-connect_example =
    published-connect system [] 12345 world plenty plenty-IsAmple 3 ip_port (omega arith)
      (refl, refl) refl

published-refused_example :
    (text : Bytes) × (published (0 ∷ []) (short_of (pos 40000)) plenty ≡ ok (text, plenty))
    × (rtable_connect system (some text) world
        ≡ done none (record world { memory = spend 2 2 plenty }))
published-refused_example =
    published-refused system [] 40000 world plenty plenty-IsAmple (omega arith, omega arith)

-- The first server of a chain.
abbrev setup : Setup
setup = record {
  rwlock_init = true;
  socket = some 5;
  setsockopt = true;
  bind = true;
  listen = true;
  zookeeper_init = true;
  has_root = false;
  creates_root = true;
  this_node_path = node_path (node_name 0);
  behind = 0 ∷ [];
  zoo_set = true;
}

server_network_init-EndsTidy_example : EndsTidy setup 5 (server_network_init setup (pos 80) plenty)
server_network_init-EndsTidy_example =
    server_network_init-EndsTidy setup [] 5 (pos 80) plenty-IsAmple refl refl refl
