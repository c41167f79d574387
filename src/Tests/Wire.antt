-- ===== src/Tests/Wire.antt =====
-- Messages on a connection.
use amazon_dynamo_db.Prelude.{◌+◌, ◌≤◌, ◌≡◌, pos, some, List, [], ◌∷◌, arith, refl}
use amazon_dynamo_db.Sockets.{
  Socket, Progress, Arrival, chunk, read_interrupted, wrote, write_interrupted, write_all, read_all,
}
use amazon_dynamo_db.Sockets.Delivery.{incoming, patience, write_all-sent, read_all-incoming}
use amazon_dynamo_db.Messages.{MessageT, message_init}
use amazon_dynamo_db.Messages.Opcode
use amazon_dynamo_db.Messages.CType
use amazon_dynamo_db.Network.{Codec, World, htons, network_send, network_receive}
use amazon_dynamo_db.Network.Frames.{
  Sends, Receives, network_send-frame, network_receive-frame, network_receive-small,
}
use amazon_dynamo_db.Tests.Fixtures.{plenty, plenty-IsAmple}

abbrev size_request : MessageT
size_request = record message_init { opcode = Opcode.size; c_type = CType.none }

-- A packing that knows one message only.
abbrev one_message : Codec
one_message = record { pack = λ msg. 8 ∷ 40 ∷ 16 ∷ []; unpack = λ bytes. some size_request }

-- A connection that is interrupted, and that delivers a frame in two pieces.
abbrev wire : Socket
wire = record {
  arrivals = chunk (0 ∷ []) ∷ read_interrupted ∷ chunk (3 ∷ 8 ∷ 40 ∷ 16 ∷ 0 ∷ []) ∷ [];
  progress = write_interrupted ∷ wrote 1 ∷ wrote 1 ∷ wrote 4 ∷ wrote 1 ∷ wrote 1 ∷ [];
  sent = [];
}

abbrev world : World
world = record { memory = plenty; sockets = λ fd. wire; closed = [] }

write_all-sent_example :
    (rest : List Progress) × (write_all wire (1 ∷ 2 ∷ 3 ∷ [])
      ≡ some (pos 3, record wire { progress = rest; sent = 1 ∷ 2 ∷ 3 ∷ [] }))
    × (5 ≤ patience rest + 3)
unfolding patience
write_all-sent_example = write_all-sent wire (1 ∷ 2 ∷ 3 ∷ []) (omega arith)

read_all-incoming_test :
    (rest : List Arrival) × (read_all wire 4
      ≡ some (pos 4, 0 ∷ 3 ∷ 8 ∷ 40 ∷ [], record wire { arrivals = rest }))
    × (incoming rest ≡ 16 ∷ 0 ∷ [])
unfolding incoming
read_all-incoming_test = read_all-incoming wire 4 (omega arith)

network_send-frame_test :
    Sends 4 (0 ∷ 3 ∷ 8 ∷ 40 ∷ 16 ∷ []) world (network_send one_message 4 size_request world)
unfolding htons patience
network_send-frame_test =
    network_send-frame one_message 4 size_request world plenty-IsAmple (omega arith)

network_receive-frame_example :
    Receives (some size_request) 4 (0 ∷ []) (network_receive one_message 4 world)
unfolding htons incoming
network_receive-frame_example =
    network_receive-frame one_message 4 world plenty-IsAmple size_request (0 ∷ []) refl

network_receive-small_test :
    Receives (some size_request) 4 (0 ∷ []) (network_receive one_message 4 world)
unfolding htons incoming
network_receive-small_test =
    network_receive-small one_message 4 world plenty-IsAmple size_request (0 ∷ []) refl
      (omega arith, omega arith) refl
