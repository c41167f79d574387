-- ===== src/Threads/Invariant.antt =====
-- What holds in every state of the threads: who holds the lock, and how many clients there are.
use amazon_dynamo_db.Prelude.{
  ℕ, suc, ◌+◌, ◌<◌, ◌≡◌, refl, arith, Bool-cases, inl, inr, if◌then◌else◌,
}
use amazon_dynamo_db.Threads.{
  RwLock, read_by, written, comeca_read, comeca_write, termina, is_write, Phase, starting,
  receiving, waiting, inside, replying, gone, Threads, Move, join, receive, hang_up, lock_read,
  lock_write, unlock, reply, fail_reply, init, Reach, start, later,
}
use amazon_dynamo_db.Threads.Family.{update, sum_of, sum_of-update, sum_of-const}

abbrev pub reads : Phase → ℕ
reads (inside msg) = if is_write msg then 0 else 1
reads _ = 0

abbrev pub writes : Phase → ℕ
writes (inside msg) = if is_write msg then 1 else 0
writes _ = 0

-- The thread has counted itself, and not yet left.
abbrev pub lives : Phase → ℕ
lives starting = 0
lives gone = 0
lives _ = 1

abbrev pub readers : RwLock → ℕ
readers (read_by k) = suc k
readers _ = 0

abbrev pub writers : RwLock → ℕ
writers written = 1
writers _ = 0

pub record Inv (n : ℕ) (s : Threads) : Type 0 where
  pub reading : sum_of reads n s.phase ≡ readers s.lock
  pub writing : sum_of writes n s.phase ≡ writers s.lock
  pub counted : s.connected_clients ≡ sum_of lives n s.phase

pub init-Inv : (n : ℕ) → Inv n init
init-Inv n = record {
  reading = sum_of-const reads n starting refl;
  writing = sum_of-const writes n starting refl;
  counted = omega (arith, sum_of-const lives n starting refl);
}

-- The three sums after a thread has gone to another phase.
sums :
    {n : ℕ} (s : Threads) (i : ℕ) (p : Phase)
    → i < n
    → (sum_of reads n (update s.phase i p) + reads (s.phase i) ≡ sum_of reads n s.phase + reads p)
      × (sum_of writes n (update s.phase i p) + writes (s.phase i)
          ≡ sum_of writes n s.phase + writes p)
      × (sum_of lives n (update s.phase i p) + lives (s.phase i) ≡ sum_of lives n s.phase + lives p)
sums {n} s i p h = (
  sum_of-update reads n s.phase i p h,
  sum_of-update writes n s.phase i p h,
  sum_of-update lives n s.phase i p h,
)

-- Every move keeps the invariant.
pub Move-Inv : {n : ℕ} {s t : Threads} (i : ℕ) → i < n → Move s i t → Inv n s → Inv n t
unfolding comeca_read comeca_write termina
Move-Inv {n} {s} i h (join p e) inv = ground (arith, sums s i (receiving) h, inv)
Move-Inv {n} {s} i h (receive msg p e) inv = ground (arith, sums s i (waiting msg) h, inv)
Move-Inv {n} {s} i h (hang_up p e) inv = ground (arith, sums s i (gone) h, inv)
Move-Inv {n} {s} i h (lock_read msg l p w a e) inv = ground (arith, sums s i (inside msg) h, inv)
Move-Inv {n} {s} i h (lock_write msg l p w a e) inv = ground (arith, sums s i (inside msg) h, inv)
Move-Inv {n} {s} i h (unlock msg p e) inv = elim (Bool-cases (is_write msg)) [
  | inl writing ↦ ground (arith, sums s i (replying) h, inv, writing)
  | inr reading ↦ ground (arith, sums s i (replying) h, inv, reading)
]
Move-Inv {n} {s} i h (reply p e) inv = ground (arith, sums s i (receiving) h, inv)
Move-Inv {n} {s} i h (fail_reply p e) inv = ground (arith, sums s i (gone) h, inv)

pub Reach-Inv : {n : ℕ} {s : Threads} → Reach n s → Inv n s
Reach-Inv {n} start = init-Inv n
Reach-Inv (later r i h m) = Move-Inv i h m (Reach-Inv r)
