-- ===== src/Tests/Services.antt =====
-- Requests and answers between a client and a server of the chain.
use amazon_dynamo_db.Prelude.{◌++◌, List, ◌+◌, ◌≡◌, refl, pos, Option, some, none, [], ◌∷◌, arith}
use amazon_dynamo_db.Strings.{Bytes}
use amazon_dynamo_db.Assoc.{insert}
use amazon_dynamo_db.Memory.{Memory}
use amazon_dynamo_db.Memory.Spend.{IsAmple, IsAmple-spend, spend}
use amazon_dynamo_db.Sockets.{Socket, chunk, hung_up, wrote}
use amazon_dynamo_db.Sockets.Delivery.{incoming, patience}
use amazon_dynamo_db.Table.Hash.{home, char_sum}
use amazon_dynamo_db.Table.Buckets.{table_of, total}
use amazon_dynamo_db.Messages.{MessageT, message_init}
use amazon_dynamo_db.Messages.Opcode
use amazon_dynamo_db.Messages.CType
use amazon_dynamo_db.Skeleton.Stats.Laws.{counts}
use amazon_dynamo_db.Skeleton.Replies.{invoke-size, size_reply}
use amazon_dynamo_db.Network.{Codec, World, done, htons}
use amazon_dynamo_db.Remote.{network_send_receive}
use amazon_dynamo_db.Remote.Exchange.{Exchanges, network_send_receive-answer}
use amazon_dynamo_db.Service.{serve_all, Round, ServerState, stays, serve}
use amazon_dynamo_db.Service.Rounds.{serve-forward}
use amazon_dynamo_db.Service.Session.{Exchange, rounds, Conversation, serve_all-answers}
use amazon_dynamo_db.Tests.Fixtures.{plenty, plenty-IsAmple, stocked, stocked-IsTable}

unpack_pair : Bytes → Option MessageT
unpack_pair [] = none
unpack_pair (a ∷ []) = none
unpack_pair (a ∷ b ∷ rest) = some (record message_init { opcode = a; c_type = b })

-- A packing of messages that are nothing but an opcode and a content type.
abbrev pairs_only : Codec
pairs_only = record { pack = λ msg. msg.opcode ∷ msg.c_type ∷ []; unpack = unpack_pair }

abbrev ask_size : MessageT
ask_size = record message_init { opcode = Opcode.size; c_type = CType.none }

abbrev plain_answer : MessageT
plain_answer = record message_init { opcode = Opcode.put + 1; c_type = CType.none }

-- A connection on which a message arrives, and that takes what is written at once.
abbrev line : Bytes → Socket
line arriving = record {
  arrivals = chunk arriving ∷ hung_up ∷ [];
  progress = wrote 1 ∷ wrote 1 ∷ wrote 1 ∷ wrote 1 ∷ [];
  sent = [];
}

abbrev world_of : Socket → World
world_of s = record { memory = plenty; sockets = λ fd. s; closed = [] }

network_send_receive-answer_example :
    Exchanges
      (some plain_answer)
      4
      (0 ∷ 2 ∷ 40 ∷ 70 ∷ [])
      (9 ∷ [])
      (world_of (line (0 ∷ 2 ∷ 11 ∷ 70 ∷ 9 ∷ [])))
      (network_send_receive pairs_only 4 ask_size (world_of (line (0 ∷ 2 ∷ 11 ∷ 70 ∷ 9 ∷ []))))
unfolding htons patience incoming unpack_pair
network_send_receive-answer_example =
    network_send_receive-answer pairs_only 4 ask_size plain_answer (9 ∷ [])
      (world_of (line (0 ∷ 2 ∷ 11 ∷ 70 ∷ 9 ∷ []))) plenty-IsAmple (omega arith) refl (omega arith)
      refl

abbrev asked : World
asked = world_of (line (0 ∷ 2 ∷ 40 ∷ 70 ∷ 9 ∷ []))

abbrev before : ServerState
before = record { stats = counts 3 5 1; table = some (table_of stocked) }

serve-forward_example :
    (w' : World) × (serve pairs_only 4
        (record { next_sockfd = some 5; elapsed = pos 2 })
        before
        asked
      ≡ done (stays (record { stats = counts 4 7 1; table = some (table_of stocked) })) w')
    × ((w'.sockets 5).sent ≡ 0 ∷ 2 ∷ 40 ∷ 70 ∷ [])
    × ((w'.sockets 4).sent ≡ 0 ∷ 2 ∷ 41 ∷ 40 ∷ [])
    × (incoming (w'.sockets 4).arrivals ≡ 9 ∷ [])
    × ((w'.sockets 5).arrivals ≡ (asked.sockets 5).arrivals)
unfolding htons patience incoming unpack_pair home char_sum insert total
serve-forward_example =
    serve-forward pairs_only 4 (counts 3 5 1) (pos 2) (refl, refl) ask_size (size_reply 1) (9 ∷ [])
      (some (table_of stocked)) (some (table_of stocked)) asked (spend 1 1 (spend 1 1 plenty)) 5
      (omega arith) plenty-IsAmple refl (omega arith, omega arith) refl (omega arith)
      (
        pos 0,
        invoke-size stocked-IsTable (counts 3 5 1) ask_size
            (IsAmple-spend 1 1 (IsAmple-spend 1 1 plenty-IsAmple)) (refl, refl) (omega arith),
      )
      (IsAmple-spend 1 1 (IsAmple-spend 1 1 plenty-IsAmple)) (omega arith)

-- A connection that the client has closed.
abbrev gone_client : World
gone_client = world_of (record { arrivals = hung_up ∷ []; progress = []; sent = [] })

abbrev idle : Round
idle = record { next_sockfd = none; elapsed = pos 0 }

-- The size is asked twice.
abbrev ask_once : Memory → Exchange
ask_once m = record {
  msg = ask_size;
  reply = size_reply 1;
  elapsed = pos 2;
  table = some (table_of stocked);
  memory = m;
}

abbrev twice : List Exchange
twice = ask_once (spend 1 1 plenty) ∷ ask_once (spend 1 1 (spend 1 1 (spend 1 1 plenty))) ∷ []

abbrev busy_line : World
busy_line = world_of (record {
  arrivals = chunk (0 ∷ 2 ∷ 40 ∷ 70 ∷ 0 ∷ []) ∷ chunk (2 ∷ 40 ∷ 70 ∷ []) ∷ hung_up ∷ [];
  progress = wrote 4 ∷ wrote 1 ∷ wrote 1 ∷ wrote 1 ∷ wrote 1 ∷ wrote 1 ∷ wrote 1 ∷ wrote 1 ∷ [];
  sent = [];
})

twice-Conversation : Conversation pairs_only (counts 3 5 1) (some (table_of stocked)) plenty twice
unfolding home char_sum insert total unpack_pair
twice-Conversation =
    let first : IsAmple (spend 1 1 plenty) = IsAmple-spend 1 1 plenty-IsAmple in
    let second : IsAmple (spend 1 1 (spend 1 1 (spend 1 1 plenty))) =
      IsAmple-spend 1 1 (IsAmple-spend 1 1 first) in
    (
      (omega arith, omega arith),
      refl,
      (pos 0, invoke-size stocked-IsTable (counts 3 5 1) ask_size first (refl, refl) (omega arith)),
      first,
      (refl, refl),
      (
        (omega arith, omega arith),
        refl,
        (
          pos 0,
          invoke-size stocked-IsTable (counts 4 7 1) ask_size second (refl, refl) (omega arith),
        ),
        second,
        (refl, refl),
        tt,
      ),
    )

serve_all-answers_example :
    (w' : World) × (serve_all pairs_only 4 (rounds twice ++ idle ∷ []) before busy_line
      ≡ serve_all pairs_only 4
          (idle ∷ [])
          (record { stats = counts 5 9 1; table = some (table_of stocked) })
          w')
    × ((w'.sockets 4).sent ≡ 0 ∷ 2 ∷ 41 ∷ 40 ∷ 0 ∷ 2 ∷ 41 ∷ 40 ∷ [])
    × (incoming (w'.sockets 4).arrivals ≡ [])
unfolding htons patience incoming
serve_all-answers_example =
    serve_all-answers pairs_only 4 twice (counts 3 5 1) (some (table_of stocked)) busy_line plenty
      [] (idle ∷ []) refl plenty-IsAmple refl (omega arith) twice-Conversation
