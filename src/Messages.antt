-- ===== src/Messages.antt =====
-- source/htmessages.proto: the message that requests and replies share, as the C code sees it.
-- `message_t__init` gives every field its default in proto3.
pub mod Opcode
pub mod CType
use amazon_dynamo_db.Prelude.{ℕ, ℤ, pos, Option, none, List, []}
use amazon_dynamo_db.Strings.{Bytes}

-- `value` is NULL where it is empty.
pub record EntryT : Type 0 where
  pub key : Bytes
  pub value : Bytes

pub record StatisticsT : Type 0 where
  pub total_ops : ℤ
  pub total_op_time : ℤ
  pub connected_clients : ℤ

-- The arrays `keys` and `entries` come with their lengths.
pub record MessageT : Type 0 where
  pub opcode : ℕ
  pub c_type : ℕ
  pub entry : Option EntryT
  pub key : Bytes
  pub value : Bytes
  pub result : ℤ
  pub keys : List Bytes
  pub n_keys : ℤ
  pub entries : List EntryT
  pub n_entries : ℤ
  pub stats : Option StatisticsT

abbrev pub message_init : MessageT
message_init = record {
  opcode = 0;
  c_type = 0;
  entry = none;
  key = [];
  value = [];
  result = pos 0;
  keys = [];
  n_keys = pos 0;
  entries = [];
  n_entries = pos 0;
  stats = none;
}
