-- ===== src/Stub/Listing.antt =====
-- The requests of source/client_stub.c that copy the keys, the entries or the statistics of a server.
pub mod Laws
use mathlib.Core.Option
use amazon_dynamo_db.Prelude.{
  ℕ, zero, suc, ◌+◌, ◌*◌, ℤ, pos, negsuc, minus_one, Bool, true, false, Option, none, some,
  if◌then◌else◌, List, [], ◌∷◌, length,
}
use amazon_dynamo_db.Memory.{
  M, pure, crash, null_pointer, out_of_bounds, malloc, free, free_first, free_ptr, deref, memcpy,
  size_of_int, ◌>>=◌, ◌>>◌,
}
use amazon_dynamo_db.Strings.{Bytes}
use amazon_dynamo_db.Block.{Block, block_create, block_duplicate, block_destroy}
use amazon_dynamo_db.Entry.{Entry, sizeof_entry}
use amazon_dynamo_db.LinkedList.{sizeof_pointer}
use amazon_dynamo_db.Messages.{EntryT, StatisticsT, MessageT}
use amazon_dynamo_db.Messages.Opcode
use amazon_dynamo_db.Messages.CType
use amazon_dynamo_db.Skeleton.{int_of_size}
use amazon_dynamo_db.Skeleton.Stats.{sizeof_stats}
use amazon_dynamo_db.Stub.{Link, accepted, bare_request}

-- The `for` of `rtable_get_keys`: `n` rounds are left, and `i` keys have been copied.
copy_answer_keys : ℕ → List Bytes → ℕ → M (Option (List Bytes))
copy_answer_keys zero keys i = pure (some [])
copy_answer_keys (suc n) [] i = crash out_of_bounds
copy_answer_keys (suc n) (key ∷ keys) i = do
  granted ← malloc (length key + 1)
  if granted
      then (do rest ← copy_answer_keys n keys (i + 1); pure (Option.map (λ ks. key ∷ ks) rest))
      else (do free_first i; free; pure none)

take_keys : Option MessageT → M (Option (List Bytes))
take_keys none = pure none
take_keys (some answer) = do
  granted ← malloc (sizeof_pointer * (size_of_int answer.n_keys + 1))
  if granted then copy_answer_keys (size_of_int answer.n_keys) answer.keys 0 else pure none

pub rtable_get_keys : {S : Type 0} → Option (Link S) → S → M (Option (List Bytes) × S)
rtable_get_keys none s = pure (none, s)
rtable_get_keys (some link) s = do
  (answer, s') ← link.send_receive (bare_request Opcode.getkeys) s
  keys ← take_keys (accepted (Opcode.getkeys + 1) CType.keys answer)
  pure (keys, s')

pub rtable_free_keys : Option (List Bytes) → M (Unit {0})
rtable_free_keys none = pure tt
rtable_free_keys (some keys) = do free_first (length keys); free

-- The value of one entry: the block is made, copied and destroyed. NULL where a step failed.
take_block : Bytes → M (Option Block)
take_block value = do
  data_ ← memcpy value (length value)
  block1 ← block_create (int_of_size (length value)) (some data_)
  block ← block_duplicate block1
  _ ← block_destroy block1
  pure block

-- The `for` of `rtable_get_table`: `n` rounds are left, and `i` entries have been copied. The ways
-- out free `i` entries and their keys, if the entry itself has its block, and not their blocks.
copy_answer_entries : ℕ → List EntryT → ℕ → M (Option (List Entry))
copy_answer_entries zero entries i = pure (some [])
copy_answer_entries (suc n) [] i = crash out_of_bounds
copy_answer_entries (suc n) (e ∷ entries) i = do
  made ← malloc sizeof_entry
  if made
      then (do
        copied ← malloc (length e.key + 1)
        if copied
            then (do
              granted ← malloc (length e.value)
              if granted
                  then (do
                    block ← take_block e.value
                    rest ← copy_answer_entries n entries (i + 1)
                    pure (Option.map (λ es. record { key = some e.key; value = block } ∷ es) rest))
                  else (do free_first (i + i); free; pure none))
            else (do free_first (i + i); free; pure none))
      else (do free_first i; free; pure none)

take_table : Option MessageT → M (Option (List Entry))
take_table none = pure none
take_table (some answer) = do
  granted ← malloc (sizeof_pointer * (size_of_int answer.n_entries + 1))
  if granted then copy_answer_entries (size_of_int answer.n_entries) answer.entries 0 else pure none

pub rtable_get_table : {S : Type 0} → Option (Link S) → S → M (Option (List Entry) × S)
rtable_get_table none s = pure (none, s)
rtable_get_table (some link) s = do
  (answer, s') ← link.send_receive (bare_request Opcode.gettable) s
  entries ← take_table (accepted (Opcode.gettable + 1) CType.table answer)
  pure (entries, s')

-- `free(e->key)` ignores NULL.
free_entries : List Entry → M (Unit {0})
free_entries [] = free
free_entries (e ∷ entries) = do
  free_ptr e.key
  _ ← block_destroy e.value
  free
  free_entries entries

pub rtable_free_entries : Option (List Entry) → M (Unit {0})
rtable_free_entries none = pure tt
rtable_free_entries (some entries) = free_entries entries

-- The result of `malloc` is not tested.
take_stats : Option MessageT → M (Option StatisticsT)
take_stats none = pure none
take_stats (some answer) = do
  granted ← malloc sizeof_stats
  if granted then (do stats ← deref answer.stats; pure (some stats)) else crash null_pointer

pub rtable_stats : {S : Type 0} → Option (Link S) → S → M (Option StatisticsT × S)
rtable_stats none s = pure (none, s)
rtable_stats (some link) s = do
  (answer, s') ← link.send_receive (bare_request Opcode.stats) s
  stats ← take_stats (accepted (Opcode.stats + 1) CType.stats answer)
  pure (stats, s')
