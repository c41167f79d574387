-- ===== src/Stub.antt =====
-- source/client_stub.c: the requests of a client, and what it makes of the answers. A remote table
-- is NULL or a link, which carries a request to the server and its answer back.
pub mod Listing
pub mod Server
pub mod Remote
pub mod Framed
use mathlib.Core.Option
use amazon_dynamo_db.Prelude.{
  ℕ, zero, suc, ◌+◌, ℤ, pos, negsuc, minus_one, ◌==◌, ◌&&◌, Bool, true, false, Option, none, some,
  if◌then◌else◌, List, [], ◌∷◌, length,
}
use amazon_dynamo_db.Memory.{M, pure, malloc, free, deref, memcpy, size_of_int, ◌>>=◌, ◌>>◌}
use amazon_dynamo_db.Strings.{Bytes}
use amazon_dynamo_db.Block.{Block, block_create, block_duplicate, block_destroy}
use amazon_dynamo_db.Entry.{Entry}
use amazon_dynamo_db.Messages.{EntryT, MessageT, message_init}
use amazon_dynamo_db.Messages.Opcode
use amazon_dynamo_db.Messages.CType
use amazon_dynamo_db.Skeleton.{int_of_size}

-- `network_send_receive`: the answer, or NULL, and what becomes of the server. What protobuf-c
-- allocates for the answer, and frees with it, is not counted.
pub record Link (S : Type 0) : Type 0 where
  pub send_receive : MessageT → S → M (Option MessageT × S)

-- The answer, if it has this opcode and this content.
abbrev pub accepted : ℕ → ℕ → Option MessageT → Option MessageT
accepted opcode c_type none = none
accepted opcode c_type (some answer) =
    if (answer.opcode == opcode) && (answer.c_type == c_type) then some answer else none

abbrev pub put_request : Bytes → Bytes → MessageT
put_request key value = record message_init {
  opcode = Opcode.put;
  c_type = CType.entry;
  entry = some (record { key = key; value = value });
}

abbrev pub key_request : ℕ → Bytes → MessageT
key_request opcode key = record message_init { opcode = opcode; c_type = CType.key; key = key }

abbrev pub bare_request : ℕ → MessageT
bare_request opcode = record message_init { opcode = opcode; c_type = CType.none }

code_of : Option MessageT → ℤ
code_of none = minus_one
code_of (some answer) = pos 0

-- `free` of the copy of a key, which is NULL if there was no memory for it.
free_copy : Bool → M (Unit {0})
free_copy true = free
free_copy false = pure tt

-- The copy of the key is not tested: without it the message has no key.
put_entry : {S : Type 0} → Link S → Bytes → Block → S → M (ℤ × S)
put_entry link key value s = do
  copied ← malloc (length key + 1)
  granted ← malloc (size_of_int value.datasize)
  if granted
      then (do
        source ← deref value.data_
        data_ ← memcpy source (size_of_int value.datasize)
        (answer, s') ← link.send_receive (put_request (if copied then key else []) data_) s
        free
        free_copy copied
        pure (code_of (accepted (Opcode.put + 1) CType.none answer), s'))
      else (do free_copy copied; pure (minus_one, s))

pub rtable_put : {S : Type 0} → Option (Link S) → Option Entry → S → M (ℤ × S)
rtable_put none entry s = pure (minus_one, s)
rtable_put (some link) none s = pure (minus_one, s)
rtable_put (some link) (some entry) s = do
  key ← deref entry.key
  value ← deref entry.value
  put_entry link key value s

-- The block is made, copied and destroyed, and the copy is returned.
take_value : Option MessageT → M (Option Block)
take_value none = do free; pure none
take_value (some answer) = do
  granted ← malloc (length answer.value)
  if granted
      then (do
        data_ ← memcpy answer.value (length answer.value)
        block ← block_create (int_of_size (length answer.value)) (some data_)
        block2 ← block_duplicate block
        _ ← block_destroy block
        free
        pure block2)
      else (do free; pure none)

pub rtable_get : {S : Type 0} → Option (Link S) → Option Bytes → S → M (Option Block × S)
rtable_get none key s = pure (none, s)
rtable_get (some link) none s = pure (none, s)
rtable_get (some link) (some key) s = do
  granted ← malloc (length key + 1)
  if granted
      then (do
        (answer, s') ← link.send_receive (key_request Opcode.get key) s
        block ← take_value (accepted (Opcode.get + 1) CType.value answer)
        pure (block, s'))
      else pure (none, s)

pub rtable_del : {S : Type 0} → Option (Link S) → Option Bytes → S → M (ℤ × S)
rtable_del none key s = pure (minus_one, s)
rtable_del (some link) none s = pure (minus_one, s)
rtable_del (some link) (some key) s = do
  granted ← malloc (length key + 1)
  if granted
      then (do
        (answer, s') ← link.send_receive (key_request Opcode.del key) s
        free
        pure (code_of (accepted (Opcode.del + 1) CType.none answer), s'))
      else pure (minus_one, s)

result_of : Option MessageT → ℤ
result_of none = minus_one
result_of (some answer) = answer.result

pub rtable_size : {S : Type 0} → Option (Link S) → S → M (ℤ × S)
rtable_size none s = pure (minus_one, s)
rtable_size (some link) s = do
  (answer, s') ← link.send_receive (bare_request Opcode.size) s
  pure (result_of (accepted (Opcode.size + 1) CType.result answer), s')
