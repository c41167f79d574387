-- ===== src/Tests/Replicas.antt =====
-- Two servers with the same entry, and what one and two clients put there.
use amazon_dynamo_db.Prelude.{ℕ, refl, none, some, [], ◌∷◌, ◌++◌, arith, All, List, ◌≡◌}
use amazon_dynamo_db.Assoc.{insert}
use amazon_dynamo_db.Table.Hash.{home}
use amazon_dynamo_db.Table.Buckets.{table_of, view, total}
use amazon_dynamo_db.Messages.{MessageT}
use amazon_dynamo_db.Threads.Family.{update}
use amazon_dynamo_db.Skeleton.Stats.Laws.{counts}
use amazon_dynamo_db.Stub.{put_request, key_request}
use amazon_dynamo_db.Stub.Server.{Server, running, handle}
use amazon_dynamo_db.Messages.Opcode
use amazon_dynamo_db.Replication.{
  Chain, Reach, begin, receive, answer, relay, repeat, after_message, forwarded,
}
use amazon_dynamo_db.Replication.Queues.{pending}
use amazon_dynamo_db.Replication.Prefixes.{Behind, play}
use amazon_dynamo_db.Replication.Effects.{IsClean, to_put, Holds, effect}
use amazon_dynamo_db.Replication.Progress.{IsQuiet, Drains, settles-IsQuiet}
use amazon_dynamo_db.Replication.Copies.{follower-Behind, copies-Holds}
use amazon_dynamo_db.Replication.Reads.{read_reply, follower_reads}
use amazon_dynamo_db.Tests.Fixtures.{
  key_a, key_a-IsKey, plenty, plenty-IsAmple, key_b, seven, key_b-IsKey, stocked, stocked-IsTable,
}

abbrev both : ℕ → Server
both i = running (counts 0 0 0) (some (table_of stocked)) plenty

both-Holds : (i : ℕ) → Holds 1 0 (both i) (view stocked)
unfolding total home insert
both-Holds i = record {
  stats = counts 0 0 0;
  buckets = stocked;
  memory = plenty;
  runs = refl;
  valid = stocked-IsTable;
  ample = plenty-IsAmple;
  views = refl;
  fits = omega arith;
}

abbrev second : MessageT
second = put_request key_b seven

second-IsClean : All IsClean (second ∷ [])
second-IsClean = (to_put key_b seven (refl, refl) refl key_b-IsKey (omega arith, omega arith), tt)

-- The first server has passed the request on.
abbrev passed_on : Chain
passed_on = record {
  server = both;
  inbox = forwarded 1 0 second (λ i. []);
  link = λ i. none;
  clients = update (λ c. none) 0 (some second);
}

-- Both have handled it.
abbrev copied : Chain
copied = record {
  server = update (update both 0 (after_message second (both 0))) 1 (after_message second (both 1));
  inbox = forwarded 1 1 second (update passed_on.inbox 1 []);
  link = update (update passed_on.link 1 (some second)) 1 none;
  clients = update passed_on.clients 0 none;
}

passed_on-Reach : Reach 1 1 both passed_on (second ∷ [])
passed_on-Reach = receive begin 0 second (omega arith) refl

copied-Reach : Reach 1 1 both copied (second ∷ [])
unfolding forwarded
copied-Reach =
    repeat
      (relay (answer passed_on-Reach 0 second (omega arith) refl) 1 second []
        (omega arith, omega arith) refl refl)
      1 second (omega arith, omega arith) refl

copied-IsQuiet : IsQuiet 1 1 copied
unfolding forwarded
copied-IsQuiet = record {
  inboxes = λ i above below. ground arith;
  links = λ i above below. ground arith;
  threads = λ c below. ground arith;
}

copies-Holds_example : Holds 1 1 (copied.server 1) (play effect (second ∷ []) (view stocked))
copies-Holds_example =
    copies-Holds 1 (view stocked) copied (second ∷ []) copied-Reach copied-IsQuiet 1 (omega arith)
      (both-Holds 1) second-IsClean (omega arith)

follower-Behind_example :
    Behind effect (Holds 1) (view stocked) (pending passed_on 1) (both 1) (second ∷ [])
follower-Behind_example =
    follower-Behind 1 (view stocked) passed_on (second ∷ []) passed_on-Reach 0 (omega arith)
      (both-Holds 1) second-IsClean (omega arith)

settles-IsQuiet_example :
    (s : Chain) × (Drains 1 1 passed_on s) × (Reach 1 1 both s (second ∷ [])) × (IsQuiet 1 1 s)
settles-IsQuiet_example = settles-IsQuiet passed_on (second ∷ []) passed_on-Reach

follower_reads_example :
    (first rest : List MessageT) × (second ∷ [] ≡ first ++ rest)
    × ((handle (key_request Opcode.get key_a) (both 1)).0
        ≡ some (read_reply (play effect first (view stocked) key_a)))
follower_reads_example =
    follower_reads 1 (view stocked) passed_on (second ∷ []) passed_on-Reach 0 (omega arith)
      (both-Holds 1) second-IsClean (omega arith) key_a key_a-IsKey
