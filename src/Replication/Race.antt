-- ===== src/Replication/Race.antt =====
-- Two clients that write to the same key at once.
use amazon_dynamo_db.Prelude.{ℕ, ◌≡◌, some}
use amazon_dynamo_db.Strings.{Bytes}
use amazon_dynamo_db.Table.Session.{Map}
use amazon_dynamo_db.Stub.Server.{Server}
use amazon_dynamo_db.Replication.Effects.{Holds}

-- A server that has the value under the key, and `k` more entries than `n` at most.
abbrev pub Has : ℕ → ℕ → Server → Bytes → Bytes → Type 0
Has n k srv key v = (g : Map) × (Holds n k srv g) × (g key ≡ some v)
