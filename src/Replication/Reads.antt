-- ===== src/Replication/Reads.antt =====
-- What a client reads from the servers behind the first one.
use amazon_dynamo_db.Prelude.{
  ℕ, suc, ◌+◌, ◌≤◌, ◌<◌, ◌≡◌, refl, ap, Option, Option-cases, inl, inr, none, some, List, ◌++◌, All,
  arith, int_limit, length,
}
use amazon_dynamo_db.Strings.{Bytes}
use amazon_dynamo_db.Table.Hash.{IsKey}
use amazon_dynamo_db.Table.Session.{Map}
use amazon_dynamo_db.Messages.{MessageT}
use amazon_dynamo_db.Messages.Opcode
use amazon_dynamo_db.Skeleton.{error_message}
use amazon_dynamo_db.Skeleton.Replies.{value_reply, invoke-get}
use amazon_dynamo_db.Stub.{key_request}
use amazon_dynamo_db.Stub.Server.{Server, handle}
use amazon_dynamo_db.Replication.{Chain, Reach}
use amazon_dynamo_db.Replication.Prefixes.{play}
use amazon_dynamo_db.Replication.Effects.{IsClean, Holds, effect}
use amazon_dynamo_db.Replication.Copies.{follower-Behind}

-- The reply to a get request, by what is stored.
abbrev pub read_reply : Option Bytes → MessageT
read_reply none = error_message
read_reply (some v) = value_reply v

read-Holds :
    (n k : ℕ) (srv : Server) (f : Map) (key : Bytes)
    → Holds n k srv f
    → IsKey key
    → (handle (key_request Opcode.get key) srv).0 ≡ some (read_reply (f key))
read-Holds n k srv f key h hashable =
    let replies =
      invoke-get h.valid h.stats (key_request Opcode.get key) h.ample (refl, refl) hashable in
    let there = ap (λ g. g key) h.views in
    elim (Option-cases (f key)) [
      | inl missing ↦ ground (arith, h.runs, replies, there, missing)
      | inr (v, stored) ↦ ground (arith, h.runs, replies, there, stored)
    ]

-- In every state that a chain of servers with one client can come to, a server behind the first one
-- answers a get request of a hashable key by what a first part of the requests, in the order in
-- which the first server has passed them on, has left under the key, when it starts with a valid
-- table, every request for memory is granted, the keys of the requests are hashable, their values
-- are not empty and have lengths that fit an int, the entries at first and the requests together
-- fit an int, and no connection fails.
pub follower_reads :
    {last : ℕ} {servers : ℕ → Server} (room : ℕ) (f : Map) (s : Chain) (log : List MessageT)
    → Reach last 1 servers s log
    → (i : ℕ) → suc i ≤ last
    → Holds room 0 (servers (suc i)) f
    → All IsClean log
    → room + length log < int_limit
    → (key : Bytes) → IsKey key
    → (first rest : List MessageT) × (log ≡ first ++ rest)
      × ((handle (key_request Opcode.get key) (s.server (suc i))).0
          ≡ some (read_reply (play effect first f key)))
follower_reads room f s log r i place holds clean fits key hashable =
    let b = follower-Behind room f s log r i place holds clean fits in
    (
      b.done,
      _,
      b.order,
      read-Holds room (length b.done) (s.server (suc i)) (play effect b.done f) key b.stands
          hashable,
    )
