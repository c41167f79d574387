-- ===== src/Skeleton/Stats/Laws.antt =====
-- The skeleton from its start to its end, and its counters.
use amazon_dynamo_db.Prelude.{
  ℕ, ℤ, suc, ◌+◌, ◌-◌, ◌<◌, ◌≡◌, refl, pos, minus_one, ◌+ℤ◌, fits_int, true, some, List, [], ◌∷◌,
  arith, int_limit,
}
use amazon_dynamo_db.Memory.{ok, Memory, M, pure, ◌>>=◌, int_add}
use amazon_dynamo_db.Memory.Holds.{Holds, bind-Holds}
use amazon_dynamo_db.Memory.Spend.{
  IsAmple, IsAmple-spend, spend, malloc-IsAmple, free-spend, int_add-pos, int_add-pred,
  int_add-fits,
}
use amazon_dynamo_db.Table.Buckets.{IsTable, Buckets, table_of, empty, total}
use amazon_dynamo_db.Table.Keys.Laws.{table_create-empty}
use amazon_dynamo_db.Table.Destroy.Laws.{blocks, table_destroy-blocks}
use amazon_dynamo_db.Messages.{StatisticsT}
use amazon_dynamo_db.Skeleton.Stats.{
  server_skeleton_init, server_skeleton_destroy, increment_clients, decrement_clients,
  increment_time, increment_total_ops, decrement_total_ops,
}

abbrev pub counts : ℕ → ℕ → ℕ → StatisticsT
counts ops time clients = record {
  total_ops = pos ops;
  total_op_time = pos time;
  connected_clients = pos clients;
}

-- server_skeleton_init of at least one list starts with counters that are 0 and an empty table,
-- when malloc grants every request.
pub server_skeleton_init-empty :
    (n : ℕ) {m : Memory}
    → IsAmple m
    → server_skeleton_init (pos (suc n)) m
      ≡ ok ((some (counts 0 0 0), some (table_of (empty (suc n)))), spend (n + 4) 0 m)
unfolding server_skeleton_init
server_skeleton_init-empty n ample =
    ground (arith, malloc-IsAmple 12 ample, table_create-empty n (IsAmple-spend 1 0 ample))

-- server_skeleton_destroy frees the statistics, every block of a valid table and every block that
-- it takes itself, and returns -1, when malloc grants every request and one more than the entries
-- fits an int.
pub server_skeleton_destroy-blocks :
    {bs : Buckets} {m : Memory}
    → IsTable bs
    → IsAmple m
    → total bs + 1 < int_limit
    → (a : ℕ) × (server_skeleton_destroy (some (table_of bs)) m
        ≡ ok (minus_one, spend a (a + blocks bs + 1) m))
unfolding server_skeleton_destroy
server_skeleton_destroy-blocks {bs} {m} t ample room =
    let (a, done) = table_destroy-blocks {m = spend 0 1 m} t (IsAmple-spend 0 1 ample) room in
    (a, ground (arith, free-spend m, done))

module _ (ops time clients : ℕ) (m : Memory) where
  pub increment_total_ops-counts :
      ops + 1 < int_limit
      → increment_total_ops (counts ops time clients) m ≡ ok (counts (ops + 1) time clients, m)
  unfolding increment_total_ops
  increment_total_ops-counts h = ground (arith, int_add-pos m ops 1 h)

  pub increment_time-counts :
      (d : ℕ)
      → time + d < int_limit
      → increment_time (pos d) (counts ops time clients) m ≡ ok (counts ops (time + d) clients, m)
  unfolding increment_time
  increment_time-counts d h = ground (arith, int_add-pos m time d h)

  pub increment_clients-counts :
      clients + 1 < int_limit
      → increment_clients (counts ops time clients) m ≡ ok (counts ops time (clients + 1), m)
  unfolding increment_clients
  increment_clients-counts h = ground (arith, int_add-pos m clients 1 h)

  pub decrement_clients-counts :
      0 < clients
      → clients < int_limit
      → decrement_clients (counts ops time clients) m ≡ ok (counts ops time (clients - 1), m)
  unfolding decrement_clients
  decrement_clients-counts h k = ground (arith, int_add-pred clients m h k)

-- The counters after more operations and more time.
abbrev pub add_ops : ℤ → StatisticsT → StatisticsT
add_ops n s = record s { total_ops = s.total_ops +ℤ n }

abbrev pub add_time : ℤ → StatisticsT → StatisticsT
add_time d s = record s { total_op_time = s.total_op_time +ℤ d }

pub increment_total_ops-add_ops :
    (s : StatisticsT) (m : Memory)
    → fits_int (s.total_ops +ℤ pos 1) ≡ true
    → increment_total_ops s m ≡ ok (add_ops (pos 1) s, m)
unfolding increment_total_ops
increment_total_ops-add_ops s m h = ground (arith, int_add-fits m s.total_ops (pos 1) h)

pub increment_time-add_time :
    (d : ℤ) (s : StatisticsT) (m : Memory)
    → fits_int (s.total_op_time +ℤ d) ≡ true
    → increment_time d s m ≡ ok (add_time d s, m)
unfolding increment_time
increment_time-add_time d s m h = ground (arith, int_add-fits m s.total_op_time d h)

-- Counting the time and the operations leaves the number of clients.
pub increment_time-clients :
    (d : ℤ) (s : StatisticsT) (m : Memory)
    → Holds (λ s'. s'.connected_clients ≡ s.connected_clients) (increment_time d s m)
unfolding increment_time
increment_time-clients d s m = bind-Holds _ (int_add s.total_op_time d) _ (λ n m'. refl) m

pub increment_total_ops-clients :
    (s : StatisticsT) (m : Memory)
    → Holds (λ s'. s'.connected_clients ≡ s.connected_clients) (increment_total_ops s m)
unfolding increment_total_ops
increment_total_ops-clients s m = bind-Holds _ (int_add s.total_ops (pos 1)) _ (λ n m'. refl) m

pub decrement_clients-clients :
    (n : ℕ) (s : StatisticsT) (m : Memory)
    → n + 1 < int_limit
    → s.connected_clients ≡ pos (n + 1)
    → decrement_clients s m ≡ ok (record s { connected_clients = pos n }, m)
unfolding decrement_clients
decrement_clients-clients n s m h e = ground (arith, e, int_add-pred (n + 1) m (omega arith) h)

-- What the threads of the clients do to the counters: one joins, it works for a while, it undoes an
-- operation, or it leaves.
pub data Event : Type 0 where
  joined : Event
  worked : ℕ → Event
  undone : Event
  left : Event

count : Event → StatisticsT → M StatisticsT
count joined s = increment_clients s
count (worked time) s = do s' ← increment_total_ops s; increment_time (pos time) s'
count undone s = decrement_total_ops s
count left s = decrement_clients s

pub count_all : List Event → StatisticsT → M StatisticsT
count_all [] s = pure s
count_all (e ∷ es) s = do s' ← count e s; count_all es s'

-- The operations done and not undone, the time, and the clients that have joined and not left.
unfoldable pub tally : List Event → ℕ → ℕ → ℕ → StatisticsT
tally [] ops time clients = counts ops time clients
tally (joined ∷ es) ops time clients = tally es ops time (clients + 1)
tally (worked d ∷ es) ops time clients = tally es (ops + 1) (time + d) clients
tally (undone ∷ es) ops time clients = tally es (ops - 1) time clients
tally (left ∷ es) ops time clients = tally es ops time (clients - 1)

-- No counter leaves the range from 0 to the greatest `int`.
unfoldable pub IsInRange : List Event → ℕ → ℕ → ℕ → Type 0
IsInRange [] ops time clients = Unit
IsInRange (joined ∷ es) ops time clients =
    (clients + 1 < int_limit) × IsInRange es ops time (clients + 1)
IsInRange (worked d ∷ es) ops time clients =
    (ops + 1 < int_limit) × (time + d < int_limit) × IsInRange es (ops + 1) (time + d) clients
IsInRange (undone ∷ es) ops time clients =
    (0 < ops) × (ops < int_limit) × IsInRange es (ops - 1) time clients
IsInRange (left ∷ es) ops time clients =
    (0 < clients) × (clients < int_limit) × IsInRange es ops time (clients - 1)

-- Over any sequence of clients that join, work, undo and leave, the counters are the operations
-- done and not undone, the time, and the clients that have joined and not left, as long as no
-- counter leaves the range from 0 to the greatest int.
pub count_all-tally :
    (es : List Event) (ops time clients : ℕ) (m : Memory)
    → IsInRange es ops time clients
    → count_all es (counts ops time clients) m ≡ ok (tally es ops time clients, m)
unfolding count_all count tally IsInRange increment_clients decrement_clients increment_time
    increment_total_ops decrement_total_ops
count_all-tally [] ops time clients m h = refl
count_all-tally (joined ∷ es) ops time clients m h =
    ground (arith, int_add-pos m clients 1 h.0, count_all-tally es ops time (clients + 1) m h.1)
count_all-tally (worked d ∷ es) ops time clients m h = ground (
  arith,
  int_add-pos m ops 1 h.0,
  int_add-pos m time d h.1,
  count_all-tally es (ops + 1) (time + d) clients m h.2,
)
count_all-tally (undone ∷ es) ops time clients m h =
    ground (arith, int_add-pred ops m h.0 h.1, count_all-tally es (ops - 1) time clients m h.2)
count_all-tally (left ∷ es) ops time clients m h =
    ground (arith, int_add-pred clients m h.0 h.1, count_all-tally es ops time (clients - 1) m h.2)
