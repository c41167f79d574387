-- ===== src/Threads.antt =====
-- The threads of source/server_network.c, one for each client, and the lock that guards the table.
-- The steps of `clientThread` that other threads can see are the moves of a system.
pub mod Family
pub mod Invariant
pub mod Safety
use amazon_dynamo_db.Prelude.{
  ℕ, zero, suc, ◌+◌, ◌-◌, ◌<◌, ◌≡◌, Bool, true, false, ◌||◌, Option, none, some, if◌then◌else◌,
  ◌==◌,
}
use amazon_dynamo_db.Messages.{MessageT}
use amazon_dynamo_db.Messages.Opcode
use Family.{update}

unfoldable pub is_write : MessageT → Bool
is_write msg = (msg.opcode == Opcode.put) || (msg.opcode == Opcode.del)

-- A `pthread_rwlock_t`: `read_by k` is held by `k + 1` readers.
pub data RwLock : Type 0 where
  free : RwLock
  read_by : ℕ → RwLock
  written : RwLock

-- The lock afterwards; `none` while the caller waits.
unfoldable pub comeca_read : RwLock → Option RwLock
comeca_read free = some (read_by 0)
comeca_read (read_by k) = some (read_by (suc k))
comeca_read written = none

unfoldable pub comeca_write : RwLock → Option RwLock
comeca_write free = some written
comeca_write (read_by k) = none
comeca_write written = none

-- `terminaRead` and `terminaWrite` are the same call.
unfoldable pub termina : RwLock → RwLock
termina free = free
termina (read_by zero) = free
termina (read_by (suc k)) = read_by k
termina written = free

-- Where a thread is: before it counts itself, before `network_receive`, before the lock with a
-- message, in `invoke` of it, before the reply, and after the loop.
pub data Phase : Type 0 where
  starting : Phase
  receiving : Phase
  waiting : MessageT → Phase
  inside : MessageT → Phase
  replying : Phase
  gone : Phase

pub record Threads : Type 0 where
  pub phase : ℕ → Phase
  pub lock : RwLock
  pub connected_clients : ℕ

abbrev pub to : Threads → ℕ → Phase → Threads
to s i p = record s { phase = update s.phase i p }

-- A move of thread `i`. The counter changes under a mutex, at once.
pub data Move (s : Threads) (i : ℕ) (t : Threads) : Type 0 where
  join :
      s.phase i ≡ starting
      → t ≡ record (to s i receiving) { connected_clients = s.connected_clients + 1 }
      → Move s i t
  receive : (msg : MessageT) → s.phase i ≡ receiving → t ≡ to s i (waiting msg) → Move s i t
  hang_up :
      s.phase i ≡ receiving
      → t ≡ record (to s i gone) { connected_clients = s.connected_clients - 1 }
      → Move s i t
  lock_read :
      (msg : MessageT) (l : RwLock)
      → s.phase i ≡ waiting msg
      → is_write msg ≡ false
      → comeca_read s.lock ≡ some l
      → t ≡ record (to s i (inside msg)) { lock = l }
      → Move s i t
  lock_write :
      (msg : MessageT) (l : RwLock)
      → s.phase i ≡ waiting msg
      → is_write msg ≡ true
      → comeca_write s.lock ≡ some l
      → t ≡ record (to s i (inside msg)) { lock = l }
      → Move s i t
  unlock :
      (msg : MessageT)
      → s.phase i ≡ inside msg
      → t ≡ record (to s i replying) { lock = termina s.lock }
      → Move s i t
  reply : s.phase i ≡ replying → t ≡ to s i receiving → Move s i t
  fail_reply :
      s.phase i ≡ replying
      → t ≡ record (to s i gone) { connected_clients = s.connected_clients - 1 }
      → Move s i t

abbrev pub init : Threads
init = record { phase = λ i. starting; lock = free; connected_clients = 0 }

-- What `n` threads can come to.
pub data Reach (n : ℕ) : Threads → Type 0 where
  start : Reach n init
  later : {s t : Threads} → Reach n s → (i : ℕ) → i < n → Move s i t → Reach n t
