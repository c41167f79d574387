-- ===== src/Skeleton/Errors.antt =====
-- What `invoke` does with messages that are no requests.
use amazon_dynamo_db.Prelude.{ℕ, ◌≡◌, minus_one, some, none, arith, Bool, false, ◌==◌, ◌||◌, ◌&&◌}
use amazon_dynamo_db.Memory.{ok, fault, null_pointer, Memory}
use amazon_dynamo_db.Table.{Table}
use amazon_dynamo_db.Messages.{StatisticsT, MessageT}
use amazon_dynamo_db.Messages.Opcode
use amazon_dynamo_db.Messages.CType
use amazon_dynamo_db.Skeleton.{invoke, dispatch, when_type, msg_put, error_message, message_error}

-- The content that a request with this opcode has.
abbrev pub expects : ℕ → ℕ → Bool
expects opcode c_type =
    ((opcode == Opcode.put) && (c_type == CType.entry))
    || (((opcode == Opcode.get) || (opcode == Opcode.del)) && (c_type == CType.key))
    || (((opcode == Opcode.size)
          || (opcode == Opcode.getkeys)
          || (opcode == Opcode.gettable)
          || (opcode == Opcode.stats))
        && (c_type == CType.none))

-- A message whose opcode is no request, or whose content is not the one of its opcode, is answered
-- by OP_ERROR with the code -1, and nothing is changed or allocated.
pub invoke-error :
    (stats : StatisticsT) (msg : MessageT) (t : Table) (m : Memory)
    → expects msg.opcode msg.c_type ≡ false
    → invoke stats (some msg) (some t) m ≡ ok ((minus_one, some error_message, some t), m)
unfolding invoke dispatch when_type message_error
invoke-error stats msg t m h = ground arith

-- A put request with content CT_ENTRY but without an entry reads through a NULL pointer.
pub invoke-put_null :
    (stats : StatisticsT) (msg : MessageT) (t : Table) (m : Memory)
    → msg.opcode ≡ Opcode.put
    → msg.c_type ≡ CType.entry
    → msg.entry ≡ none
    → invoke stats (some msg) (some t) m ≡ fault null_pointer
unfolding invoke dispatch when_type msg_put
invoke-put_null stats msg t m o c e = ground arith
