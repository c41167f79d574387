-- ===== src/Messages/CType.antt =====
-- The enumeration `C_type` of source/htmessages.proto: what a message contains.
use amazon_dynamo_db.Prelude.{ℕ}

abbrev pub bad : ℕ
bad = 0

abbrev pub entry : ℕ
entry = 10

abbrev pub key : ℕ
key = 20

abbrev pub value : ℕ
value = 30

abbrev pub result : ℕ
result = 40

abbrev pub keys : ℕ
keys = 50

abbrev pub table : ℕ
table = 60

abbrev pub none : ℕ
none = 70

abbrev pub stats : ℕ
stats = 80
