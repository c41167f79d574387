-- ===== src/Tests/Sessions.antt =====
-- Whole runs of a table.
use amazon_dynamo_db.Prelude.{ℕ, ◌≡◌, pos, minus_one, some, none, List, [], ◌∷◌, All, arith}
use amazon_dynamo_db.Memory.{ok}
use amazon_dynamo_db.Memory.Spend.{spend}
use amazon_dynamo_db.Strings.{strcmp}
use amazon_dynamo_db.Table.Buckets.{empty, total-empty, empty-IsTable}
use amazon_dynamo_db.Table.Session.{Op, store, fetch, erase, code, bytes, IsOp, answer, answers}
use amazon_dynamo_db.Table.Session.Runs.{Runs, run-Runs, lifetime, lifetime-answers}
use amazon_dynamo_db.Tests.Fixtures.{
  plenty, plenty-IsAmple, key_a, key_b, seven, key_a-IsKey, key_b-IsKey,
}

abbrev script : List Op
script = store key_a seven ∷ fetch key_a ∷ erase key_b ∷ erase key_a ∷ fetch key_a ∷ []

script-IsOp : All IsOp script
script-IsOp =
    ((key_a-IsKey, omega arith), (key_a-IsKey, (key_b-IsKey, (key_a-IsKey, (key_a-IsKey, tt)))))

lifetime-answers_example :
    (a : ℕ) × (lifetime (pos 2) script plenty
      ≡ ok (
        (
          code (pos 0) ∷ bytes (some seven) ∷ code (pos 1) ∷ code (pos 0) ∷ bytes none ∷ [],
          minus_one,
        ),
        spend a a plenty,
      ))
unfolding answer answers strcmp
lifetime-answers_example = lifetime-answers 1 script plenty-IsAmple script-IsOp (omega arith)

run-Runs_test : Runs (empty 2) script plenty
run-Runs_test =
    run-Runs script plenty (empty-IsTable 2 (omega arith)) plenty-IsAmple script-IsOp
      (omega (arith, total-empty 2))
