-- ===== src/Tests/Threads.antt =====
-- Threads at the lock.
use amazon_dynamo_db.Prelude.{◌<◌, ◌≡◌, ℕ, ◌≢◌, ◌⊎◌, refl, arith, inl}
use amazon_dynamo_db.Messages.{message_init, MessageT}
use amazon_dynamo_db.Messages.Opcode
use amazon_dynamo_db.Threads.{
  written, receiving, waiting, inside, Threads, to, Move, join, receive, lock_write, init, Reach,
  start, later, comeca_write, is_write,
}
use amazon_dynamo_db.Threads.Family.{sum_of}
use amazon_dynamo_db.Threads.Invariant.{lives}
use amazon_dynamo_db.Threads.Safety.{writer_alone, waiting-progress, connected_clients-live}

abbrev write_message : MessageT
write_message = record message_init { opcode = Opcode.put }

-- The first of two threads comes to the lock, and takes it.
abbrev joined : Threads
joined = record (to init 0 receiving) { connected_clients = 1 }

abbrev asking : Threads
asking = to joined 0 (waiting write_message)

abbrev writing : Threads
writing = record (to asking 0 (inside write_message)) { lock = written }

asking-Reach : Reach 2 asking
asking-Reach =
    later (later start 0 (omega arith) (join refl refl)) 0 (omega arith)
      (receive write_message refl refl)

writing-Reach : Reach 2 writing
unfolding comeca_write is_write
writing-Reach =
    later asking-Reach 0 (omega arith) (lock_write write_message written refl refl refl refl)

writer_alone_example : writing.phase 1 ≢ inside message_init
writer_alone_example =
    writer_alone write_message message_init 0 1 writing-Reach (omega arith, omega arith) refl
      (inl refl) (omega arith)

connected_clients-live_example : writing.connected_clients ≡ sum_of lives 2 writing.phase
connected_clients-live_example = connected_clients-live writing-Reach

waiting-progress_example :
    ((t : Threads) × Move asking 0 t)
    ⊎ ((j : ℕ) × (j < 2) × ((other : MessageT) × (asking.phase j ≡ inside other)))
waiting-progress_example = waiting-progress write_message 0 asking-Reach refl
