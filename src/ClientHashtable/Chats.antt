-- ===== src/ClientHashtable/Chats.antt =====
-- A client at its terminal, against a chain of one server: the lines that are typed, and what is printed.
use amazon_dynamo_db.Prelude.{
  ℕ, ◌+◌, ◌<◌, ◌≡◌, Bool, ℤ, some, List, [], ◌∷◌, ◌++◌, All, map, arith, int_limit, length,
}
use amazon_dynamo_db.Memory.{ok, Memory}
use amazon_dynamo_db.Memory.Spend.{IsAmple, IsAmple-spend, spend}
use amazon_dynamo_db.Strings.{Bytes}
use amazon_dynamo_db.Remote.{Rtable}
use amazon_dynamo_db.Chain.Watcher.{Environment}
use amazon_dynamo_db.Chain.Client.{Client, handle_client_connection}
use amazon_dynamo_db.Table.Buckets.{Buckets, table_of, total}
use amazon_dynamo_db.Table.Session.{Map}
use amazon_dynamo_db.Messages.{StatisticsT}
use amazon_dynamo_db.Stub.Server.{running, server_link}
use amazon_dynamo_db.Commands.{Request, Output, goes_on}
use amazon_dynamo_db.Commands.Steps.{
  IsChat, shown, next, Represents, execute-Shows, line, read_command-line, typed_lines,
  read_lines-typed_lines,
}
use amazon_dynamo_db.Commands.Lines.{IsLine}
use amazon_dynamo_db.ClientHashtable.{
  command_loop, continue_with, main, session, unconnected, test_client_input, run_client, lift,
}

-- What all lines print, and the texts afterwards.
unfoldable pub transcript : List Request → Map → List Output
transcript [] f = []
transcript (r ∷ rs) f = shown r f ++ transcript rs (next r f)

unfoldable pub finally : List Request → Map → Map
finally [] f = f
finally (r ∷ rs) f = finally rs (next r f)

-- The loop has printed the transcript and waits for a line; the server stands for the texts, and the
-- loop has freed all that it was granted.
pub record Talks (hc tc : Bool) (counters : StatisticsT) (bs : Buckets) (f : Map)
    (rs : List Request) (m sm : Memory) : Type 0 where
  pub after : Buckets
  pub used : ℕ
  pub server_memory : Memory
  pub runs :
      command_loop hc tc
        (some server_link)
        (some server_link)
        (map line rs)
        (running counters (some (table_of bs)) sm)
        m
      ≡ ok (
        goes_on (transcript rs f) (running counters (some (table_of after)) server_memory),
        spend used used m,
      )
  pub represents : Represents after (finally rs f)

module _ (hc tc : Bool) (counters : StatisticsT) where
  pub command_loop-Talks :
      (rs : List Request) (bs : Buckets) (f : Map) (m sm : Memory)
      → Represents bs f
      → All IsChat rs
      → All IsLine rs
      → IsAmple m
      → IsAmple sm
      → total bs + length rs < int_limit
      → Talks hc tc counters bs f rs m sm
  unfolding command_loop continue_with transcript finally
  command_loop-Talks [] bs f m sm rep chat fits ample server_ample room = record {
    after = bs;
    used = 0;
    server_memory = sm;
    runs = ground arith;
    represents = rep;
  }
  command_loop-Talks (r ∷ rs) bs f m sm rep chat fits ample server_ample room =
      let first =
        execute-Shows hc tc counters rep ample server_ample (omega (arith, room)) r chat.0 in
      let read =
        read_command-line (some server_link) (some server_link) hc tc r
          (running counters (some (table_of bs)) sm) m chat.0 fits.0 in
      let rest =
        command_loop-Talks rs first.after (next r f) (spend first.used first.used m)
          (spend first.granted first.freed sm) first.represents chat.1 fits.1
          (IsAmple-spend first.used first.used ample)
          (IsAmple-spend first.granted first.freed server_ample)
          (omega (arith, room, first.grows)) in
      record {
        after = rest.after;
        used = first.used + rest.used;
        server_memory = rest.server_memory;
        runs = ground (arith, read, first.runs, rest.runs);
        represents = rest.represents;
      }

-- A client with two arguments that comes to a chain of one server prints, for any sequence of put,
-- get and del commands and empty lines that are typed, what a map from keys to texts answers, where
-- a del prints that the key was removed also if there was none; it then waits for a line, the table
-- of the server stands for that map, and the loop has freed every block that it was granted, when
-- handle_client_connection leaves both connections, each of which carries messages whole to the
-- server, every request for memory is granted, the table stands for the map at first, the words are
-- as IsTyped says, each line fits the buffer of fgets and has no zero byte, the keys are hashable,
-- each text that is put has seven characters and no zero byte, and the entries and the commands
-- together fit an int.
pub main-Talks :
    (hc tc : Bool) (net : Environment Rtable) (argv children : List Bytes) (code : ℤ)
    (c : Client Rtable) (head tail : Rtable) (counters : StatisticsT) (rs : List Request)
    (bs : Buckets) (f : Map) (m sm : Memory)
    → length argv ≡ 2
    → handle_client_connection net children unconnected ≡ ok (code, c)
    → (c.rtable_head ≡ some head) × (c.rtable_tail ≡ some tail)
    → Represents bs f
    → All IsChat rs
    → All IsLine rs
    → (IsAmple m) × (IsAmple sm)
    → total bs + length rs < int_limit
    → (after : Buckets) × (used : ℕ) × (sm' : Memory) × (main hc tc net
          (λ r. server_link)
          argv
          children
          (typed_lines rs)
          (running counters (some (table_of bs)) sm)
          m
        ≡ ok (
          session (goes_on (transcript rs f) (running counters (some (table_of after)) sm')),
          spend used used m,
        ))
      × Represents after (finally rs f)
unfolding main test_client_input run_client lift
main-Talks hc tc net argv children code c head tail counters rs bs f m sm two connects ends rep chat
      fits ample room =
    let talk = command_loop-Talks hc tc counters rs bs f m sm rep chat fits ample.0 ample.1 room in
    (
      talk.after,
      talk.used,
      talk.server_memory,
      ground (arith, two, connects, ends.0, ends.1, read_lines-typed_lines rs chat fits, talk.runs),
      talk.represents,
    )
