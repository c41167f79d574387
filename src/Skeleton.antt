-- ===== src/Skeleton.antt =====
-- source/server_skeleton.c: the requests that a server answers from its table, and its statistics.
pub mod Entries
pub mod Stats
pub mod Replies
pub mod Errors
pub mod Listing
use amazon_dynamo_db.Prelude.{
  ℕ, zero, suc, ◌+◌, ◌-◌, ◌*◌, ◌%◌, ◌^◌, ℤ, pos, negsuc, minus_one, ◌==ℤ◌, ◌==◌, Option, none, some,
  if◌then◌else◌, List, [], ◌∷◌, length, ltb, sub_ℕ,
}
use amazon_dynamo_db.Memory.{
  M, pure, crash, null_pointer, malloc, free, free_first, deref, memcpy, size_of_int, ◌>>=◌, ◌>>◌,
}
use amazon_dynamo_db.Strings.{Bytes}
use amazon_dynamo_db.Block.{Block, block_create, block_destroy}
use amazon_dynamo_db.Table.{Table, table_put, table_get, table_size, table_remove}
use amazon_dynamo_db.Table.Keys.{table_get_keys}
use amazon_dynamo_db.Messages.{EntryT, StatisticsT, MessageT, message_init}
use amazon_dynamo_db.Messages.Opcode
use amazon_dynamo_db.Messages.CType
use Entries.{table_entries}

-- The code, the message that now holds the reply, and the table.
abbrev pub Handled : Type 0
Handled = ℤ × MessageT × Option Table

abbrev pub error_message : MessageT
error_message = record message_init { opcode = Opcode.error; c_type = CType.none }

pub message_error : Option Table → M Handled
message_error table = pure (minus_one, error_message, table)

-- `size_t` to `int`.
unfoldable pub int_of_size : ℕ → ℤ
int_of_size n = let low = n % 2 ^ 32 in if ltb low (2 ^ 31) then pos low else sub_ℕ low (2 ^ 32)

-- The block takes over the bytes of the message, and is freed with them once they are copied.
put_block : Option Block → EntryT → Option Table → M Handled
put_block none entry table = message_error table
put_block (some block) entry table = do
  (code, table') ← table_put table (some entry.key) (some block)
  if code ==ℤ minus_one then message_error table' else (do
    _ ← block_destroy (some block)
    free
    pure (pos 0, record message_init { opcode = Opcode.put + 1; c_type = CType.none }, table'))

pub msg_put : MessageT → Option Table → M Handled
msg_put msg table = do
  entry ← deref msg.entry
  block ← block_create (int_of_size (length entry.value)) (some entry.value)
  put_block block entry table

get_block : Option Block → Option Table → M Handled
get_block none table = message_error table
get_block (some block) table = do
  granted ← malloc (size_of_int block.datasize)
  if granted
      then (do
        source ← deref block.data_
        copy ← memcpy source (size_of_int block.datasize)
        _ ← block_destroy (some block)
        pure (
          pos 0,
          record message_init { opcode = Opcode.get + 1; c_type = CType.value; value = copy },
          table,
        ))
      else message_error table

pub msg_get : MessageT → Option Table → M Handled
msg_get msg table = do block ← table_get table (some msg.key); get_block block table

-- Only -1 is an error: the code 1, for a key that is not there, is a success.
pub msg_del : MessageT → Option Table → M Handled
msg_del msg table = do
  (code, table') ← table_remove table (some msg.key)
  if code ==ℤ minus_one
      then message_error table'
      else pure
          (pos 0, record message_init { opcode = Opcode.del + 1; c_type = CType.none }, table')

pub msg_size : Option Table → M Handled
msg_size table = do
  size ← table_size table
  if size ==ℤ minus_one
      then message_error table
      else pure (
        pos 0,
        record message_init { opcode = Opcode.size + 1; c_type = CType.result; result = size },
        table,
      )

reply_keys : Option (List Bytes) → Option Table → M Handled
reply_keys none table = message_error table
reply_keys (some keys) table = do
  number_of_keys ← table_size table
  if number_of_keys ==ℤ minus_one
      then message_error table
      else pure (
        pos 0,
        record message_init {
          opcode = Opcode.getkeys + 1;
          c_type = CType.keys;
          keys = keys;
          n_keys = number_of_keys;
        },
        table,
      )

pub msg_get_keys : Option Table → M Handled
msg_get_keys table = do keys ← table_get_keys table; reply_keys keys table

reply_table : ℕ → Option (List EntryT) → Option Table → M Handled
reply_table n none table = message_error table
reply_table n (some entries) table = do
  free
  pure (
    pos 0,
    record message_init {
      opcode = Opcode.gettable + 1;
      c_type = CType.table;
      entries = entries;
      n_entries = pos n;
    },
    table,
  )

get_table : Option (List Bytes) → Option Table → M Handled
get_table none table = message_error table
get_table (some keys) table = do
  entries ← table_entries table keys
  reply_table (length keys) entries table

pub msg_get_table : Option Table → M Handled
msg_get_table table = do keys ← table_get_keys table; get_table keys table

-- sizeof(StatisticsT)
abbrev pub sizeof_statistics : ℕ
sizeof_statistics = 40

-- The result of `malloc` is not tested.
pub msg_get_stats : StatisticsT → Option Table → M Handled
msg_get_stats stats table = do
  granted ← malloc sizeof_statistics
  if granted
      then pure (
        pos 0,
        record message_init { opcode = Opcode.stats + 1; c_type = CType.stats; stats = some stats },
        table,
      )
      else crash null_pointer

-- A case of the `switch`: the request, if the message has the content that it needs.
when_type : MessageT → ℕ → M Handled → Option Table → M Handled
when_type msg c_type request table = if msg.c_type == c_type then request else message_error table

dispatch : StatisticsT → MessageT → Option Table → M Handled
dispatch stats msg table =
    if msg.opcode == Opcode.put
    then when_type msg CType.entry (msg_put msg table) table
    else if msg.opcode == Opcode.get
    then when_type msg CType.key (msg_get msg table) table
    else if msg.opcode == Opcode.del
    then when_type msg CType.key (msg_del msg table) table
    else if msg.opcode == Opcode.size
    then when_type msg CType.none (msg_size table) table
    else if msg.opcode == Opcode.getkeys
    then when_type msg CType.none (msg_get_keys table) table
    else if msg.opcode == Opcode.gettable
    then when_type msg CType.none (msg_get_table table) table
    else if msg.opcode == Opcode.stats
    then when_type msg CType.none (msg_get_stats stats table) table
    else message_error table

-- Without a message or a table nothing is done.
pub invoke : StatisticsT → Option MessageT → Option Table → M (ℤ × Option MessageT × Option Table)
invoke stats none table = pure (minus_one, none, table)
invoke stats (some msg) none = pure (minus_one, some msg, none)
invoke stats (some msg) (some t) = do
  (code, reply, table) ← dispatch stats msg (some t)
  pure (code, some reply, table)
