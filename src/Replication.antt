-- ===== src/Replication.antt =====
-- All the servers of a chain: the threads of source/server_network.c that pass messages on and handle
-- them, at every server at once. Clients speak to the first one.
pub mod Queues
pub mod Prefixes
pub mod Effects
pub mod Progress
pub mod Copies
pub mod Race
pub mod Reads
use amazon_dynamo_db.Prelude.{
  ℕ, suc, ◌+◌, ◌≤◌, ◌<◌, ◌≡◌, Option, none, some, List, [], ◌∷◌, ◌++◌, ltb, if◌then◌else◌,
}
use amazon_dynamo_db.Messages.{MessageT}
use amazon_dynamo_db.Threads.Family.{update}
use amazon_dynamo_db.Stub.Server.{Server, handle}

-- The servers by their place in the chain; what the server before has sent to each and it has not
-- received; what the thread of that connection has received and not handled; and the same for the
-- threads of the clients, at the first server.
pub record Chain : Type 0 where
  pub server : ℕ → Server
  pub inbox : ℕ → List MessageT
  pub link : ℕ → Option MessageT
  pub clients : ℕ → Option MessageT

-- The server after `invoke`, which the lock keeps in one piece.
unfoldable pub after_message : MessageT → Server → Server
after_message msg s = (handle msg s).1

-- `network_send` to the next server, if there is one; `last` is the place of the last server. The
-- frame goes out in one piece: `network_send` writes its size and its bytes one after the other, which
-- only another thread that writes to the same connection can see.
unfoldable pub forwarded : ℕ → ℕ → MessageT → (ℕ → List MessageT) → ℕ → List MessageT
forwarded last i msg inbox =
    if ltb i last then update inbox (suc i) (inbox (suc i) ++ msg ∷ []) else inbox

abbrev pub start : (ℕ → Server) → Chain
start servers = record { server = servers; inbox = λ i. []; link = λ i. none; clients = λ c. none }

-- What `n` clients and the servers from 0 to `last` can come to, and the messages of the clients in
-- the order in which the first server has received and passed them on. A thread receives and passes
-- on, and later handles. Nothing fails. One client is served by one thread, so that one thread writes
-- to each connection; with more clients these are the runs in which no frame is cut into another.
pub data Reach (last n : ℕ) (servers : ℕ → Server) : Chain → List MessageT → Type 0 where
  begin : Reach last n servers (start servers) []
  receive :
      {s : Chain} {log : List MessageT}
      → Reach last n servers s log
      → (c : ℕ) (msg : MessageT) → c < n
      → s.clients c ≡ none
      → Reach last n servers
          (record s {
            clients = update s.clients c (some msg);
            inbox = forwarded last 0 msg s.inbox;
          })
          (log ++ msg ∷ [])
  answer :
      {s : Chain} {log : List MessageT}
      → Reach last n servers s log
      → (c : ℕ) (msg : MessageT) → c < n
      → s.clients c ≡ some msg
      → Reach last n servers
          (record s {
            clients = update s.clients c none;
            server = update s.server 0 (after_message msg (s.server 0));
          })
          log
  relay :
      {s : Chain} {log : List MessageT}
      → Reach last n servers s log
      → (i : ℕ) (msg : MessageT) (rest : List MessageT) → (0 < i) × (i ≤ last)
      → s.link i ≡ none
      → s.inbox i ≡ msg ∷ rest
      → Reach last n servers
          (record s {
            link = update s.link i (some msg);
            inbox = forwarded last i msg (update s.inbox i rest);
          })
          log
  repeat :
      {s : Chain} {log : List MessageT}
      → Reach last n servers s log
      → (i : ℕ) (msg : MessageT) → (0 < i) × (i ≤ last)
      → s.link i ≡ some msg
      → Reach last n servers
          (record s {
            link = update s.link i none;
            server = update s.server i (after_message msg (s.server i));
          })
          log
