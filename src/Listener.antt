-- ===== src/Listener.antt =====
-- The loop of a server that takes connections: `network_main_loop`, `network_terminate` and
-- `server_network_close` of source/server_network.c.
pub mod Endings
use amazon_dynamo_db.Prelude.{
  ℕ, ℤ, pos, minus_one, Bool, Option, none, some, if◌then◌else◌, List, [], ◌∷◌,
}
use amazon_dynamo_db.Memory
use amazon_dynamo_db.Memory.{null_pointer}
use amazon_dynamo_db.Table.{Table}
use amazon_dynamo_db.Skeleton.Stats.{server_skeleton_destroy}
use amazon_dynamo_db.Network.{World, Outcome, done, waiting, crashed, N, pure, lift, ◌>>=◌, ◌>>◌}
use amazon_dynamo_db.Remote.{close}

-- Whether each call of `server_network_close` succeeds.
pub record Closing : Type 0 where
  pub close : Bool
  pub rwlock_destroy : Bool
  pub mutex_destroy : Bool

-- What `accept` gives: a connection, for which `pthread_create` and `pthread_detach` succeed or not; an
-- error; or SIGINT comes while it waits, and the handler finds the table as it is then.
pub data Accepted : Type 0 where
  connection : ℕ → Bool → Bool → Accepted
  failure : Accepted
  interrupt : Closing → Option Table → Accepted

-- The connections that threads were made for, and the code, or none while `accept` waits.
pub record Served : Type 0 where
  pub threads : List ℕ
  pub code : Option ℤ

-- The descriptor is gone also where `close` fails.
server_network_close : Closing → ℕ → N ℤ
server_network_close c socket = do
  close socket
  pure (
      if c.close
      then (if c.rwlock_destroy then (if c.mutex_destroy then pos 0 else minus_one) else minus_one)
      else minus_one)

-- Neither code is read.
network_terminate : Closing → ℕ → Option Table → N (Unit {0})
network_terminate c l_socket table = do
  _ ← server_network_close c l_socket
  _ ← lift (server_skeleton_destroy table)
  pure tt

-- sizeof(ClientThreadArgs)
abbrev sizeof_args : ℕ
sizeof_args = 16

-- `return -1;`
stop : List ℕ → N Served
stop threads = pure (record { threads = threads; code = some minus_one })

-- The thread for a connection, and the rounds after this one.
start_thread : ℕ → Bool → Bool → N Served → N Served
start_thread fd created detached rest =
    if created
    then (if detached
        then (do s ← rest; pure (record s { threads = fd ∷ s.threads }))
        else stop (fd ∷ []))
    else (do close fd; stop [])

-- The `while`. The handler is installed without SA_RESTART, so `accept` fails once it returns.
accept_loop : ℕ → List Accepted → N Served
accept_loop listening_socket [] = pure (record { threads = []; code = none })
accept_loop listening_socket (connection fd created detached ∷ arrivals) = do
  granted ← lift (Memory.malloc sizeof_args)
  if granted
      then start_thread fd created detached (accept_loop listening_socket arrivals)
      else (λ w. crashed null_pointer)
accept_loop listening_socket (failure ∷ arrivals) = do close listening_socket; stop []
accept_loop listening_socket (interrupt c table ∷ arrivals) = do
  network_terminate c listening_socket table
  close listening_socket
  stop []

-- `sigaction` succeeds or not.
pub network_main_loop : Bool → ℕ → List Accepted → N Served
network_main_loop handles_sigint listening_socket arrivals =
    if handles_sigint then accept_loop listening_socket arrivals else stop []
