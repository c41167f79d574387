-- ===== src/Tests/Fixtures.antt =====
-- The data that the tests share.
use amazon_dynamo_db.Prelude.{some, false, [], ◌∷◌, true, arith, refl}
use amazon_dynamo_db.Memory.{Memory}
use amazon_dynamo_db.Memory.Spend.{IsAmple}
use amazon_dynamo_db.Strings.{Bytes}
use amazon_dynamo_db.Assoc.{Pairs}
use amazon_dynamo_db.Network.{World}
use amazon_dynamo_db.Remote.{System}
use amazon_dynamo_db.Table.Hash.{IsKey, char_sum}
use amazon_dynamo_db.Table.Buckets.{Buckets, IsTable, put, empty, empty-IsTable, put-IsTable}

abbrev pub plenty : Memory
plenty = record { grants = λ i n. true; calls = 0; allocated = 0; freed = 0 }

pub plenty-IsAmple : IsAmple plenty
plenty-IsAmple = record { granted = λ i n. refl }

-- The keys "a" and "b", and a value.
abbrev pub key_a : Bytes
key_a = 97 ∷ []

abbrev pub key_b : Bytes
key_b = 98 ∷ []

abbrev pub seven : Bytes
seven = 7 ∷ []

pub key_a-IsKey : IsKey key_a
unfolding char_sum
key_a-IsKey = ((omega arith, tt), omega arith)

pub key_b-IsKey : IsKey key_b
unfolding char_sum
key_b-IsKey = ((omega arith, tt), omega arith)

-- A table of two lists with one entry.
abbrev pub stocked : Buckets
stocked = put (empty 2) key_a seven

pub stocked-IsTable : IsTable stocked
stocked-IsTable = put-IsTable (empty-IsTable 2 (omega arith)) key_a seven key_a-IsKey (omega arith)

abbrev pub pairs : Pairs
pairs = (key_a, seven) ∷ []

-- A system on which everything succeeds.
abbrev pub system : System Bytes
system = record {
  socket = some 3;
  inet_pton = λ text. some text;
  connects = λ address port. true;
  close_fails = λ fd. false;
}

abbrev pub world : World
world = record {
  memory = plenty;
  sockets = λ fd. record { arrivals = []; progress = []; sent = [] };
  closed = [];
}
