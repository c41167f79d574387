-- ===== src/Threads/Safety.antt =====
-- What the lock and the counter guarantee.
use amazon_dynamo_db.Prelude.{
  ℕ, suc, ◌≤◌, ◌<◌, ◌≡◌, ◌≢◌, ◌⊎◌, inl, inr, refl, ap, arith, Bool, Bool-cases, true, false, ◌+◌,
}
use amazon_dynamo_db.Messages.{MessageT}
use amazon_dynamo_db.Messages.Opcode
use native.Mathlib.Decide.{dec_lt}
use amazon_dynamo_db.Threads.{
  RwLock, free, read_by, written, comeca_read, comeca_write, is_write, Phase, starting, receiving,
  waiting, inside, replying, gone, Threads, to, Move, lock_read, lock_write, Reach,
}
use amazon_dynamo_db.Threads.Family.{sum_of, positive-sum_of, weight-le-sum_of, weights-le-sum_of}
use amazon_dynamo_db.Threads.Invariant.{Inv, reads, writes, lives, readers, writers, Reach-Inv}

writers-le : (l : RwLock) → writers l ≤ 1
writers-le free = omega arith
writers-le (read_by k) = omega arith
writers-le written = omega arith

one_kind : (l : RwLock) → 1 ≤ writers l → readers l ≡ 0
one_kind free h = refl
one_kind (read_by k) h = absurd (omega arith)
one_kind written h = refl

-- The thread handles a message that `is_write` says to write.
abbrev Writes : Phase → Type 0
Writes p = writes p ≡ 1

-- The messages that change a table.
abbrev pub Changes : MessageT → Type 0
Changes msg = (msg.opcode ≡ Opcode.put) ⊎ (msg.opcode ≡ Opcode.del)

Changes-is_write : (msg : MessageT) → Changes msg → is_write msg ≡ true
unfolding is_write
Changes-is_write msg (inl put) = rw put refl
Changes-is_write msg (inr del) = rw del refl

-- Two threads in order cannot both write.
writers_in_order :
    {n : ℕ} {s : Threads} (i j : ℕ)
    → Inv n s
    → (i < j) × (j < n)
    → Writes (s.phase i)
    → Writes (s.phase j)
    → ⊥
writers_in_order {n} {s} i j inv within in_i in_j = ground (
  arith,
  weights-le-sum_of writes n s.phase i j within.0 within.1,
  inv.writing,
  in_i,
  in_j,
  writers-le s.lock,
)

reader_beside :
    {n : ℕ} {s : Threads} (i j : ℕ)
    → Inv n s
    → (i < n) × (j < n)
    → Writes (s.phase i)
    → reads (s.phase j) ≡ 1
    → ⊥
reader_beside {n} {s} i j inv within in_i in_j = ground (
  arith,
  weight-le-sum_of writes n s.phase i within.0,
  weight-le-sum_of reads n s.phase j within.1,
  inv.writing,
  inv.reading,
  in_i,
  in_j,
  one_kind s.lock,
)

-- In every state that the threads of the server can come to, while a thread handles a put or del
-- message, no other thread handles any message.
pub writer_alone :
    {n : ℕ} {s : Threads} (msg other : MessageT) (i j : ℕ)
    → Reach n s
    → (i < n) × (j < n)
    → s.phase i ≡ inside msg
    → Changes msg
    → i ≢ j
    → s.phase j ≢ inside other
writer_alone {n} {s} msg other i j r within in_i changes apart in_j =
    let writing : Writes (s.phase i) = ground (arith, in_i, Changes-is_write msg changes) in
    elim (Bool-cases (is_write other)) [
      | inr reads_too ↦
          reader_beside i j (Reach-Inv r) within writing (ground (arith, in_j, reads_too))
      | inl writes_too ↦
          let beside : Writes (s.phase j) = ground (arith, in_j, writes_too) in
          elim (dec_lt i j) [
            | yes below ↦ writers_in_order i j (Reach-Inv r) (below, within.1) writing beside
            | no above ↦
                writers_in_order j i (Reach-Inv r) (omega (arith, apart, above), within.0) beside
                  writing
          ]
    ]

-- In every state that the threads can come to, connected_clients is the number of the threads that
-- have begun and not ended.
pub connected_clients-live :
    {n : ℕ} {s : Threads} → Reach n s → s.connected_clients ≡ sum_of lives n s.phase
connected_clients-live r = (Reach-Inv r).counted

-- A thread that holds the lock is in the handling of a message.
holds : (p : Phase) → 1 ≤ reads p + writes p → (msg : MessageT) × (p ≡ inside msg)
holds starting h = absurd (omega arith)
holds receiving h = absurd (omega arith)
holds (waiting msg) h = absurd (omega arith)
holds (inside msg) h = (msg, refl)
holds replying h = absurd (omega arith)
holds gone h = absurd (omega arith)

abbrev Held : ℕ → Threads → Type 0
Held n s = (j : ℕ) × (j < n) × ((other : MessageT) × (s.phase j ≡ inside other))

reader : {n : ℕ} {s : Threads} (k : ℕ) → Inv n s → s.lock ≡ read_by k → Held n s
reader {n} {s} k inv l =
    let found = positive-sum_of reads n s.phase (omega (arith, inv.reading, ap readers l)) in
    (found.0, found.1, holds (s.phase found.0) (omega (arith, found.2)))

writer : {n : ℕ} {s : Threads} → Inv n s → s.lock ≡ written → Held n s
writer {n} {s} inv l =
    let found = positive-sum_of writes n s.phase (omega (arith, inv.writing, ap writers l)) in
    (found.0, found.1, holds (s.phase found.0) (omega (arith, found.2)))

-- By what the thread asks for, and what the lock is.
progress :
    {n : ℕ} {s : Threads} (w : Bool) (msg : MessageT) (i : ℕ) (l : RwLock)
    → Inv n s
    → s.phase i ≡ waiting msg
    → is_write msg ≡ w
    → s.lock ≡ l
    → ((t : Threads) × Move s i t) ⊎ Held n s
unfolding comeca_read comeca_write
progress {n} {s} w msg i written inv p a e = inr (writer inv e)
progress {n} {s} true msg i (read_by k) inv p a e = inr (reader k inv e)
progress {n} {s} false msg i (read_by k) inv p a e = inl (
  record (to s i (inside msg)) { lock = read_by (suc k) },
  lock_read msg (read_by (suc k)) p a (ap comeca_read e) refl,
)
progress {n} {s} true msg i free inv p a e = inl (
  record (to s i (inside msg)) { lock = written },
  lock_write msg written p a (ap comeca_write e) refl,
)
progress {n} {s} false msg i free inv p a e = inl (
  record (to s i (inside msg)) { lock = read_by 0 },
  lock_read msg (read_by 0) p a (ap comeca_read e) refl,
)

-- In every state that the threads can come to, a thread that waits for the lock can take it at
-- once, unless some thread is in the handling of a message.
pub waiting-progress :
    {n : ℕ} {s : Threads} (msg : MessageT) (i : ℕ)
    → Reach n s
    → s.phase i ≡ waiting msg
    → ((t : Threads) × Move s i t)
      ⊎ ((j : ℕ) × (j < n) × ((other : MessageT) × (s.phase j ≡ inside other)))
waiting-progress {n} {s} msg i r h = progress (is_write msg) msg i s.lock (Reach-Inv r) h refl refl
