-- ===== src/Service.antt =====
-- `clientThread` of source/server_network.c as one client sees it: what the server does with each
-- message of a connection, from `network_receive` to the reply, and how the connection ends.
pub mod Rounds
pub mod Endings
pub mod Session
use amazon_dynamo_db.Prelude.{
  ℕ, ◌+◌, ℤ, pos, minus_one, ◌==ℤ◌, ◌==◌, ◌||◌, Option, none, some, if◌then◌else◌, List, [], ◌∷◌,
}
use amazon_dynamo_db.Memory
use amazon_dynamo_db.Memory.{Fault, null_pointer}
use amazon_dynamo_db.Table.{Table}
use amazon_dynamo_db.Messages.{MessageT, StatisticsT}
use amazon_dynamo_db.Messages.Opcode
use amazon_dynamo_db.Skeleton.{invoke}
use amazon_dynamo_db.Skeleton.Stats.{
  increment_clients, decrement_clients, increment_time, increment_total_ops,
}
use amazon_dynamo_db.Network.{
  Codec, World, Outcome, done, waiting, crashed, N, pure, ◌>>=◌, ◌>>◌, lift, network_receive,
  network_send,
}

-- What a round of the loop finds: the socket of the next server, if there is one, and the difference
-- of `tv_usec` that the clock shows around `invoke`.
pub record Round : Type 0 where
  pub next_sockfd : Option ℕ
  pub elapsed : ℤ

-- The statistics and the table.
pub record ServerState : Type 0 where
  pub stats : StatisticsT
  pub table : Option Table

-- How a round ends: the loop goes on, or `break`.
pub data Step : Type 0 where
  stays : ServerState → Step
  leaves : ServerState → Step

pub forward : Codec → Option ℕ → MessageT → N ℤ
forward codec none msg = pure (pos 0)
forward codec (some fd) msg = network_send codec fd msg

-- Statistics and errors do not count as operations.
pub count_operation : MessageT → StatisticsT → Memory.M StatisticsT
count_operation reply stats =
    if (reply.opcode == Opcode.stats + 1) || (reply.opcode == Opcode.error)
    then Memory.pure stats
    else increment_total_ops stats

module _ (codec : Codec) (connsockfd : ℕ) where
  pub reply_to : Option MessageT → ServerState → N Step
  reply_to none s = λ w. crashed null_pointer
  reply_to (some reply) s = do
    sent ← network_send codec connsockfd reply
    if sent ==ℤ minus_one then pure (leaves s) else (do
      counted ← lift (count_operation reply s.stats)
      pure (stays (record s { stats = counted })))

  pub answer_message : Round → MessageT → ServerState → N Step
  answer_message round msg s = do
    forwarded ← forward codec round.next_sockfd msg
    if forwarded ==ℤ minus_one then pure (leaves s) else (do
      (code, reply, table) ← lift (invoke s.stats (some msg) s.table)
      timed ← lift (increment_time round.elapsed s.stats)
      reply_to reply (record { stats = timed; table = table }))

  take_message : Round → ServerState → Option MessageT → N Step
  take_message round s none = pure (leaves s)
  take_message round s (some msg) = answer_message round msg s

  pub serve : Round → ServerState → N Step
  serve round s = network_receive codec connsockfd >>= take_message round s

  continue_with : (ServerState → N ServerState) → Step → N ServerState
  continue_with rest (stays s) = rest s
  continue_with rest (leaves s) = pure s

  -- The loop, in as many rounds as are given; after these it still waits.
  pub serve_all : List Round → ServerState → N ServerState
  serve_all [] s = λ w. waiting
  serve_all (r ∷ rs) s = serve r s >>= continue_with (serve_all rs)

  abbrev close : N (Unit {0})
  close w = done tt (record w { closed = connsockfd ∷ w.closed })

  -- After the loop.
  leave : ServerState → N ServerState
  leave s = do
    close
    left ← lift (decrement_clients s.stats)
    lift Memory.free
    pure (record s { stats = left })

  pub client_thread : List Round → ServerState → N ServerState
  client_thread rounds s = do
    joined ← lift (increment_clients s.stats)
    s' ← serve_all rounds (record s { stats = joined })
    leave s'
