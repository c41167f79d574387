-- ===== src/Replication/Copies.antt =====
-- What the servers of a chain have in common.
use amazon_dynamo_db.Prelude.{
  list_laws, ℕ, zero, suc, ◌+◌, ◌≤◌, ◌<◌, ◌≡◌, refl, ap, sym, subst, ◌∙◌, List, [], All, arith,
  int_limit, length,
}
use amazon_dynamo_db.Messages.{MessageT}
use amazon_dynamo_db.Stub.Server.{Server}
use amazon_dynamo_db.Table.Session.{Map}
use amazon_dynamo_db.Replication.{Chain, Reach}
use amazon_dynamo_db.Replication.Progress.{IsQuiet}
use amazon_dynamo_db.Replication.Queues.{held, pending, queue-empty}
use amazon_dynamo_db.Replication.Prefixes.{play, Behind, followers-prefix, head-prefix}
use amazon_dynamo_db.Replication.Effects.{IsClean, Holds, effect, handled-Holds}

-- In every state that a chain of servers with one client can come to, the table of each server but
-- the first is valid and stands for the map that all requests but the last ones make of the one at
-- first, in the order in which the first server has passed them on; those last ones are what is on
-- its way to that server or received and not handled, when it starts with a valid table for that
-- map, every request for memory is granted, the keys are hashable, the values are not empty and
-- have lengths that fit an int, the entries at first and the requests together fit an int, and no
-- connection fails.
pub follower-Behind :
    {last : ℕ} {servers : ℕ → Server} (room : ℕ) (f : Map) (s : Chain) (log : List MessageT)
    → Reach last 1 servers s log
    → (i : ℕ) → suc i ≤ last
    → Holds room 0 (servers (suc i)) f
    → All IsClean log
    → room + length log < int_limit
    → Behind effect (Holds room) f (pending s (suc i)) (s.server (suc i)) log
follower-Behind room f s log r i place holds clean fits =
    followers-prefix effect (Holds room) IsClean (length log)
      (λ k srv g msg ok below h. handled-Holds room k srv g msg ok (omega (arith, fits)) h) f s log
      r i place holds clean (omega arith)

settled-Holds :
    {room : ℕ} {f : Map} {srv : Server} {log waiting : List MessageT}
    → waiting ≡ []
    → Behind effect (Holds room) f waiting srv log
    → Holds room (length log) srv (play effect log f)
settled-Holds {room} {f} {srv} {log} idle b =
    let all : log ≡ b.done = b.order ∙ rw idle (simp list_laws) in
    subst (λ x. Holds room (length x) srv (play effect x f)) (sym all) b.stands

-- In a chain of servers with one client, when no message is on its way any more, the table of every
-- server is valid and stands for the map that the requests of the client, in their order, make of
-- the one at first, when all servers start with valid tables that stand for one map, every request
-- for memory is granted, the keys are hashable, the values are not empty and have lengths that fit
-- an int, the entries at first and the requests together fit an int, and no connection fails.
pub copies-Holds :
    {last : ℕ} {servers : ℕ → Server} (room : ℕ) (f : Map) (s : Chain) (log : List MessageT)
    → Reach last 1 servers s log
    → IsQuiet last 1 s
    → (i : ℕ) → i ≤ last
    → Holds room 0 (servers i) f
    → All IsClean log
    → room + length log < int_limit
    → Holds room (length log) (s.server i) (play effect log f)
copies-Holds room f s log r quiet zero place holds clean fits =
    settled-Holds (ap held (quiet.threads 0 (omega arith))) (
      head-prefix effect (Holds room) IsClean (length log)
        (λ k srv g msg ok below h. handled-Holds room k srv g msg ok (omega (arith, fits)) h) f s
        log r holds clean (omega arith))
copies-Holds room f s log r quiet (suc i) place holds clean fits =
    settled-Holds
      (rw
        (
          quiet.links (suc i) (omega arith) place,
          queue-empty s.inbox (suc i)
              (λ k h below. quiet.inboxes k h (omega (arith, below, place))),
        )
        refl)
      (follower-Behind room f s log r i place holds clean fits)
