-- ===== src/Listener/Endings.antt =====
-- What `network_main_loop` leaves behind, wherever it ends.
use amazon_dynamo_db.Prelude.{
  ℕ, ◌+◌, ◌<◌, ◌≡◌, minus_one, Bool, true, false, none, some, List, [], ◌∷◌, ◌++◌, map, All, arith,
  int_limit, length,
}
use amazon_dynamo_db.Memory.Spend.{IsAmple, IsAmple-spend, spend, malloc-IsAmple}
use amazon_dynamo_db.Table.Buckets.{Buckets, IsTable, table_of, total}
use amazon_dynamo_db.Table.Destroy.Laws.{blocks}
use amazon_dynamo_db.Skeleton.Stats.Laws.{server_skeleton_destroy-blocks}
use amazon_dynamo_db.Network.{World, Outcome, done}
use amazon_dynamo_db.Listener.{
  Closing, Accepted, connection, failure, interrupt, Served, server_network_close,
  network_terminate, start_thread, stop, accept_loop, network_main_loop,
}

-- An interrupt finds a valid table.
abbrev pub IsSound : Accepted → Type 0
IsSound (connection fd created detached) = Unit
IsSound failure = Unit
IsSound (interrupt c table) =
    (bs : Buckets) × (table ≡ some (table_of bs)) × IsTable bs × (total bs + 1 < int_limit)

-- A connection that gets its thread.
abbrev pub threaded : ℕ → Accepted
threaded fd = connection fd true true

-- The world after the threads were made, `more` blocks granted besides theirs and `freed` freed, and the
-- sockets closed.
abbrev pub left : World → List ℕ → ℕ → ℕ → List ℕ → World
left w threads more freed closed = record w {
  memory = spend (length threads + more) freed w.memory;
  closed = closed ++ w.closed;
}

abbrev pub stopped : List ℕ → Served
stopped threads = record { threads = threads; code = some minus_one }

-- How the loop can end on these arrivals, with which code, and what it leaves.
pub data Ends (l : ℕ) (w : World) : List Accepted → Served → World → Type 0 where
  waits :
      (threads : List ℕ)
      → Ends l w
          (map threaded threads)
          (record { threads = threads; code = none })
          (left w threads 0 0 [])
  fails :
      (threads : List ℕ) (rest : List Accepted)
      → Ends l w
          (map threaded threads ++ failure ∷ rest)
          (stopped threads)
          (left w threads 0 0 (l ∷ []))
  refused :
      (threads : List ℕ) (fd : ℕ) (detached : Bool) (rest : List Accepted)
      → Ends l w
          (map threaded threads ++ connection fd false detached ∷ rest)
          (stopped threads)
          (left w threads 1 0 (fd ∷ []))
  attached :
      (threads : List ℕ) (fd : ℕ) (rest : List Accepted)
      → Ends l w
          (map threaded threads ++ connection fd true false ∷ rest)
          (stopped (threads ++ fd ∷ []))
          (left w threads 1 0 [])
  interrupted :
      (threads : List ℕ) (c : Closing) (bs : Buckets) (a : ℕ) (rest : List Accepted)
      → Ends l w
          (map threaded threads ++ interrupt c (some (table_of bs)) ∷ rest)
          (stopped threads)
          (left w threads a (a + blocks bs + 1) (l ∷ l ∷ []))

abbrev pub EndsOn : ℕ → World → List Accepted → Outcome Served → Type 0
EndsOn l w arrivals run = (s : Served) × (w' : World) × (run ≡ done s w') × Ends l w arrivals s w'

abbrev spent : World → World
spent w = record w { memory = spend 1 0 w.memory }

-- One more thread in front.
module _ (fd : ℕ) (w : World) where
  left-cons :
      (threads : List ℕ) (more freed : ℕ) (closed : List ℕ)
      → left (spent w) threads more freed closed ≡ left w (fd ∷ threads) more freed closed
  left-cons threads more freed closed = ground arith

  cons-Ends :
      (l : ℕ) (arrivals : List Accepted) (s : Served) (w' : World)
      → Ends l (spent w) arrivals s w'
      → Ends l w (threaded fd ∷ arrivals) (record s { threads = fd ∷ s.threads }) w'
  cons-Ends l arrivals s w' (waits threads) = rw (left-cons threads 0 0 []) (waits (fd ∷ threads))
  cons-Ends l arrivals s w' (fails threads rest) =
      rw (left-cons threads 0 0 (l ∷ [])) (fails (fd ∷ threads) rest)
  cons-Ends l arrivals s w' (refused threads other detached rest) =
      rw (left-cons threads 1 0 (other ∷ [])) (refused (fd ∷ threads) other detached rest)
  cons-Ends l arrivals s w' (attached threads other rest) =
      rw (left-cons threads 1 0 []) (attached (fd ∷ threads) other rest)
  cons-Ends l arrivals s w' (interrupted threads c bs a rest) =
      rw (left-cons threads a (a + blocks bs + 1) (l ∷ l ∷ []))
        (interrupted (fd ∷ threads) c bs a rest)

accept_loop-Ends :
    (l : ℕ) (w : World) (arrivals : List Accepted)
    → IsAmple w.memory
    → All IsSound arrivals
    → EndsOn l w arrivals (accept_loop l arrivals w)
unfolding accept_loop start_thread stop network_terminate server_network_close
accept_loop-Ends l w [] ample sound =
    (record { threads = []; code = none }, left w [] 0 0 [], ground arith, waits [])
accept_loop-Ends l w (connection fd true true ∷ arrivals) ample sound =
    let (s, w', run, ends) =
      accept_loop-Ends l (spent w) arrivals (IsAmple-spend 1 0 ample) sound.1 in
    (
      record s { threads = fd ∷ s.threads },
      w',
      ground (arith, malloc-IsAmple 16 ample, run),
      cons-Ends fd w l arrivals s w' ends,
    )
accept_loop-Ends l w (connection fd true false ∷ arrivals) ample sound = (
  stopped (fd ∷ []),
  left w [] 1 0 [],
  ground (arith, malloc-IsAmple 16 ample),
  attached [] fd arrivals,
)
accept_loop-Ends l w (connection fd false detached ∷ arrivals) ample sound = (
  stopped [],
  left w [] 1 0 (fd ∷ []),
  ground (arith, malloc-IsAmple 16 ample),
  refused [] fd detached arrivals,
)
accept_loop-Ends l w (failure ∷ arrivals) ample sound =
    (stopped [], left w [] 0 0 (l ∷ []), ground arith, fails [] arrivals)
accept_loop-Ends l w (interrupt c table ∷ arrivals) ample ((bs, there, valid, room), sound) =
    let (a, gone) = server_skeleton_destroy-blocks valid ample room in
    (
      stopped [],
      left w [] a (a + blocks bs + 1) (l ∷ l ∷ []),
      ground (arith, there, gone),
      rw there (interrupted [] c bs a arrivals),
    )

-- Whatever accept, pthread_create and pthread_detach give, network_main_loop makes a thread for
-- each connection in their order, with one block for each, until it waits for more, or returns -1
-- in one of four ways: accept fails, and the listening socket is closed; a thread cannot be made,
-- and its connection is closed, not the listening socket, and its block is kept; a thread cannot be
-- detached, and nothing is closed; or SIGINT comes, the table and the statistics are freed with
-- every block that this takes, and the listening socket is closed twice; when SIGINT can be
-- handled, every request for memory is granted, and an interrupt finds a valid table whose entries,
-- and one more, fit an int.
pub network_main_loop-Ends :
    (l : ℕ) (w : World) (arrivals : List Accepted)
    → IsAmple w.memory
    → All IsSound arrivals
    → EndsOn l w arrivals (network_main_loop true l arrivals w)
unfolding network_main_loop
network_main_loop-Ends l w arrivals ample sound = accept_loop-Ends l w arrivals ample sound
