-- ===== src/Messages/Opcode.antt =====
-- The enumeration `Opcode` of source/htmessages.proto. A reply has the opcode of its request and 1.
use amazon_dynamo_db.Prelude.{ℕ}

abbrev pub bad : ℕ
bad = 0

abbrev pub put : ℕ
put = 10

abbrev pub get : ℕ
get = 20

abbrev pub del : ℕ
del = 30

abbrev pub size : ℕ
size = 40

abbrev pub getkeys : ℕ
getkeys = 50

abbrev pub gettable : ℕ
gettable = 60

abbrev pub stats : ℕ
stats = 70

abbrev pub error : ℕ
error = 99
