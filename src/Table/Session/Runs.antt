-- ===== src/Table/Session/Runs.antt =====
-- Whole runs of a table, from `table_create` to `table_destroy`.
use amazon_dynamo_db.Prelude.{
  ℕ, suc, ◌+◌, ◌≤◌, ◌<◌, ◌≡◌, refl, ap, pos, minus_one, ℤ, some, none, List, [], ◌∷◌, arith,
  int_limit, length, All, ◌∙◌,
}
use amazon_dynamo_db.Memory.{ok, Memory, M, pure, ◌>>=◌}
use amazon_dynamo_db.Memory.Spend.{IsAmple, IsAmple-spend, spend}
use amazon_dynamo_db.Table.{table_create}
use amazon_dynamo_db.Table.Buckets.{
  Buckets, IsTable, table_of, view, total, total-empty, empty, empty-IsTable, view-empty,
  length-empty,
}
use amazon_dynamo_db.Table.Keys.Laws.{table_create-empty}
use amazon_dynamo_db.Table.Destroy.{table_destroy}
use amazon_dynamo_db.Table.Destroy.Laws.{blocks, table_destroy-blocks}
use amazon_dynamo_db.Table.Session.{Op, Reply, run, answers, final, IsOp, exec-Steps}

-- A run of the table that answers as the map does, and accounts for every block.
pub record Runs (bs : Buckets) (ops : List Op) (m : Memory) : Type 0 where
  pub after : Buckets
  pub granted : ℕ
  pub freed : ℕ
  pub runs :
      run ops (some (table_of bs)) m
      ≡ ok ((answers ops (view bs), some (table_of after)), spend granted freed m)
  pub valid : IsTable after
  pub views : view after ≡ final ops (view bs)
  pub grows : total after ≤ total bs + length ops
  pub balance : granted + blocks bs ≡ freed + blocks after

-- Puts, gets and removals of hashable keys, with non-empty values, on any valid table answer as the
-- map that it stands for, leave a valid table that stands for the final map, and leave exactly as
-- many more blocks in use as the table has more, when malloc grants every request and the entries
-- and the operations together number less than 2^31.
pub run-Runs :
    (ops : List Op) {bs : Buckets} (m : Memory)
    → IsTable bs
    → IsAmple m
    → All IsOp ops
    → total bs + length ops < int_limit
    → Runs bs ops m
unfolding run answers final
run-Runs [] {bs} m t ample all room = record {
  after = bs;
  granted = 0;
  freed = 0;
  runs = ground arith;
  valid = t;
  views = refl;
  grows = omega arith;
  balance = refl;
}
run-Runs (op ∷ ops) {bs} m t ample all room =
    let s = exec-Steps t ample (omega arith) op all.0 in
    let wider = s.grows in
    let m' = spend s.granted s.freed m in
    let r =
      run-Runs ops {bs = s.after} m' s.valid (IsAmple-spend s.granted s.freed ample) all.1
        (omega arith) in
    record {
      after = r.after;
      granted = s.granted + r.granted;
      freed = s.freed + r.freed;
      runs = ground (arith, s.runs, r.runs, s.views);
      valid = r.valid;
      views = r.views ∙ ap (final ops) s.views;
      grows = omega (arith, r.grows);
      balance = omega (arith, s.balance, r.balance);
    }

-- What the server does with its table: create it, run operations on it, destroy it.
pub lifetime : ℤ → List Op → M (List Reply × ℤ)
lifetime n ops = do
  t ← table_create n
  (replies, t') ← run ops t
  c ← table_destroy t'
  pure (replies, c)

-- From table_create to table_destroy, any sequence of puts, gets and removals of hashable keys,
-- with non-empty values, gives the answers of a map that is empty at first, and every block that
-- malloc granted is freed, when malloc grants every request and the operations number less than
-- 2^31 - 1; the code of the destruction is -1.
pub lifetime-answers :
    (n : ℕ) (ops : List Op) {m : Memory}
    → IsAmple m
    → All IsOp ops
    → length ops + 1 < int_limit
    → (a : ℕ) × (lifetime (pos (suc n)) ops m
        ≡ ok ((answers ops (λ q. none), minus_one), spend a a m))
unfolding lifetime
lifetime-answers n ops {m} ample all room =
    let m₁ = spend (n + 3) 0 m in
    let created = table_create-empty n ample in
    let bare = total-empty (suc n) in
    let r =
      run-Runs ops {bs = empty (suc n)} m₁ (empty-IsTable (suc n) (omega arith))
        (IsAmple-spend (n + 3) 0 ample) all (omega arith) in
    let m₂ = spend (n + 3 + r.granted) r.freed m in
    let few : total r.after + 1 < int_limit = omega (arith, r.grows) in
    let (a, done) =
      table_destroy-blocks {m = m₂} r.valid (IsAmple-spend (n + 3 + r.granted) r.freed ample) few in
    (
      n + 3 + r.granted + a,
      ground
          (arith, created, r.runs, view-empty (suc n), done, r.balance, bare, length-empty (suc n)),
    )
