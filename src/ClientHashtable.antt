-- ===== src/ClientHashtable.antt =====
-- `main` of source/client_hashtable.c: the arguments, the connections to the chain, and the loop that
-- reads commands.
pub mod Signals
pub mod Chats
use mathlib.Core.Option
use amazon_dynamo_db.Prelude.{
  ℕ, ℤ, pos, negsuc, minus_one, Bool, Option, none, some, if◌then◌else◌, List, [], ◌∷◌, ◌++◌, ◌==◌,
  length, map,
}
use amazon_dynamo_db.Memory.{Run, M, pure, ok, fault, ◌>>=◌}
use amazon_dynamo_db.Strings.{Bytes}
use amazon_dynamo_db.Network
use amazon_dynamo_db.Network.{N}
use amazon_dynamo_db.Stub.{Link}
use amazon_dynamo_db.Remote.{System, Rtable, rtable_disconnect}
use amazon_dynamo_db.Chain.Watcher.{Environment}
use amazon_dynamo_db.Chain.Client.{Client, first_min, first_max, handle_client_connection}
use amazon_dynamo_db.Commands.{Output, Turn, goes_on, ends, dangles, read_command, read_lines}

test_client_input : List Bytes → ℤ
test_client_input argv = if length argv == 2 then pos 0 else minus_one

-- An early return, or what the loop has come to.
pub data Exit (S : Type 0) : Type 0 where
  returned : ℤ → Exit S
  session : Turn S → Exit S

-- What was printed before comes first.
abbrev behind : {S : Type 0} → List Output → Turn S → Turn S
behind lines (goes_on more s) = goes_on (lines ++ more) s
behind lines (ends more s) = ends (lines ++ more) s
behind lines (dangles more s) = dangles (lines ++ more) s

-- The rounds after this one.
continue_with : {S : Type 0} → (S → M (Turn S)) → Turn S → M (Turn S)
continue_with rest (goes_on lines s) = do turn ← rest s; pure (behind lines turn)
continue_with rest (ends lines s) = pure (ends lines s)
continue_with rest (dangles lines s) = pure (dangles lines s)

-- The connections before the first call of `handle_client_connection`, and the names that it begins with.
abbrev pub unconnected : Client Rtable
unconnected = record {
  rtable_head = none;
  rtable_tail = none;
  min_node = first_min;
  max_node = first_max;
  closed = [];
}

-- A function without memory of its own.
lift : {A : Type 0} → Run A → M A
lift (ok a) m = ok (a, m)
lift (fault e) m = fault e

module _ {S : Type 0} (hc tc : Bool) where
  -- The `while`, up to the lines that are given.
  pub command_loop : Option (Link S) → Option (Link S) → List (Option Bytes) → S → M (Turn S)
  command_loop head tail [] s = pure (goes_on [] s)
  command_loop head tail (line ∷ lines) s = do
    turn ← read_command head tail hc tc line s
    continue_with (command_loop head tail lines) turn

  -- Without one of the connections the client ends.
  run_client :
      (Rtable → Link S) → List (Option Bytes) → S → Option Rtable → Option Rtable → M (Exit S)
  run_client link lines s none tail = pure (returned minus_one)
  run_client link lines s (some head) none = pure (returned minus_one)
  run_client link lines s (some head) (some tail) = do
    turn ← command_loop (some (link head)) (some (link tail)) lines s
    pure (session turn)

  -- The code of `handle_client_connection` is not read. `input` is what is typed. The blocks that
  -- `handle_client_connection` takes, for the names and the connections, are not counted.
  pub main :
      Environment Rtable → (Rtable → Link S) → List Bytes → List Bytes → Bytes → S → M (Exit S)
  main net link argv children input s = elim (test_client_input argv) [
    | negsuc k ↦ pure (returned minus_one)
    | pos k ↦ do
      (code, c) ← lift (handle_client_connection net children unconnected)
      run_client link (map some (read_lines input)) s c.rtable_head c.rtable_tail
  ]
