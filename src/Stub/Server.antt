-- ===== src/Stub/Server.antt =====
-- Links to a server that runs `invoke` on each request and sends the reply back. The buffers of the
-- frames, which both ends free again, are not counted.
use amazon_dynamo_db.Prelude.{ℕ, ℤ, Option, none, some, take, length, ◌%◌, ◌^◌, ◌==◌, if◌then◌else◌}
use amazon_dynamo_db.Memory.{Run, ok, fault, Memory, pure}
use amazon_dynamo_db.Table.{Table}
use amazon_dynamo_db.Messages.{StatisticsT, MessageT}
use amazon_dynamo_db.Skeleton.{invoke}
use amazon_dynamo_db.Stub.{Link}
use amazon_dynamo_db.Network.{Codec}

-- The statistics, the table and the memory of a server that runs, or a server that has crashed.
pub data Server : Type 0 where
  running : StatisticsT → Option Table → Memory → Server
  down : Server

abbrev pub after_invoke :
    StatisticsT → Run ((ℤ × Option MessageT × Option Table) × Memory) → Option MessageT × Server
after_invoke stats (ok ((code, reply, table), m)) = (reply, running stats table m)
after_invoke stats (fault e) = (none, down)

abbrev pub handle : MessageT → Server → Option MessageT × Server
handle msg (running stats table m) = after_invoke stats (invoke stats (some msg) table m)
handle msg down = (none, down)

-- Every message arrives whole.
abbrev pub server_link : Link Server
server_link = record { send_receive = λ msg s. pure (handle msg s) }

-- The size of a frame, which travels in 16 bits.
abbrev pub frame_size : Codec → MessageT → ℕ
frame_size codec msg = length (codec.pack msg) % 2 ^ 16

-- What the client unpacks from the frame of a reply.
unfoldable pub unpacked : Codec → MessageT → Option MessageT
unpacked codec msg = codec.unpack (take (frame_size codec msg) (codec.pack msg))

-- What the server makes of the frame of a request.
unfoldable pub delivered : Codec → MessageT → Option MessageT
delivered codec msg = if frame_size codec msg == 0 then none else unpacked codec msg

abbrev pub answered : Codec → Option MessageT × Server → Option MessageT × Server
answered codec (none, s) = (none, s)
answered codec (some reply, s) = (unpacked codec reply, s)

abbrev pub handle_delivered : Codec → Option MessageT → Server → Option MessageT × Server
handle_delivered codec none s = (none, s)
handle_delivered codec (some msg) s = answered codec (handle msg s)

-- `network_send_receive` and the round of `clientThread` that reads the request and answers it. What is
-- left on the connection behind a frame that was cut is not followed.
unfoldable pub handle_framed : Codec → MessageT → Server → Option MessageT × Server
handle_framed codec msg s = handle_delivered codec (delivered codec msg) s

abbrev pub framed_link : Codec → Link Server
framed_link codec = record { send_receive = λ msg s. pure (handle_framed codec msg s) }
