-- ===== src/Service/Endings.antt =====
-- How a connection ends.
use amazon_dynamo_db.Prelude.{ℕ, ◌+◌, ◌<◌, ◌≡◌, refl, ℤ, pos, Option, List, ◌∷◌, arith, int_limit}
use amazon_dynamo_db.Memory
use amazon_dynamo_db.Memory.{ok, fault, Memory, M, Run}
use amazon_dynamo_db.Memory.Spend.{free-spend, spend}
use amazon_dynamo_db.Memory.Holds.{Holds}
use amazon_dynamo_db.Sockets.{Arrival, hung_up}
use amazon_dynamo_db.Table.{Table}
use amazon_dynamo_db.Messages.{StatisticsT}
use amazon_dynamo_db.Messages.Opcode
use amazon_dynamo_db.Skeleton.Stats.Laws.{
  counts, increment_clients-counts, decrement_clients-clients,
}
use amazon_dynamo_db.Network.{Codec, World, done, update}
use amazon_dynamo_db.Network.Effects.{network_receive-hung_up}
use amazon_dynamo_db.Service.{
  Round, ServerState, Step, stays, leaves, take_message, serve, continue_with, serve_all, leave,
  client_thread,
}

module _ (clients : ℤ) where
  -- As many clients are connected.
  abbrev Same : StatisticsT → Type 0
  Same stats = stats.connected_clients ≡ clients

  abbrev SameAfter : Step → Type 0
  SameAfter (stays s) = Same s.stats
  SameAfter (leaves s) = Same s.stats

leave-clients :
    (codec : Codec) (fd n : ℕ) (s : ServerState) (w : World)
    → n + 1 < int_limit
    → s.stats.connected_clients ≡ pos (n + 1)
    → leave codec fd s w
      ≡ done
          (record s { stats = record s.stats { connected_clients = pos n } })
          (record w { memory = spend 0 1 w.memory; closed = fd ∷ w.closed })
unfolding leave
leave-clients codec fd n s w room h =
    ground (arith, decrement_clients-clients n s.stats w.memory room h, free-spend w.memory)

-- A client that hangs up at once leaves the counters as they were, and its connection closed.
pub client_thread-hung_up :
    (codec : Codec) (fd : ℕ) (round : Round) (rounds : List Round) (ops time clients : ℕ)
    (table : Option Table) (w : World) (as_ : List Arrival)
    → clients + 1 < int_limit
    → (w.sockets fd).arrivals ≡ hung_up ∷ as_
    → let s : ServerState = record { stats = counts ops time clients; table = table } in
      client_thread codec fd (round ∷ rounds) s w
      ≡ done s (record w {
        memory = spend 0 1 w.memory;
        sockets = update w.sockets fd (record (w.sockets fd) { arrivals = hung_up ∷ as_ });
        closed = fd ∷ w.closed;
      })
unfolding client_thread serve_all serve take_message continue_with
client_thread-hung_up codec fd round rounds ops time clients table w as_ room h =
    let after : World = record w {
      sockets = update w.sockets fd (record (w.sockets fd) { arrivals = hung_up ∷ as_ });
    } in
    let s₁ : ServerState = record { stats = counts ops time (clients + 1); table = table } in
    ground (
      arith,
      increment_clients-counts ops time clients w.memory room,
      network_receive-hung_up codec fd w as_ h,
      leave-clients codec fd clients s₁ after room refl,
    )
