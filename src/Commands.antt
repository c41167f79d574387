-- ===== src/Commands.antt =====
-- source/client_hashtable.c: the commands of the terminal, how a line becomes a request, and what the
-- client does for each and prints.
pub mod Lines
pub mod Effects
pub mod Steps
use amazon_dynamo_db.Prelude.{
  ℕ, ◌+◌, ℤ, pos, minus_one, ◌==ℤ◌, ◌==◌, ◌||◌, Bool, true, false, Option, none, some,
  if◌then◌else◌, List, [], ◌∷◌, ◌++◌, length,
}
use amazon_dynamo_db.Memory.{M, pure, crash, malloc, free, deref, ◌>>=◌, ◌>>◌, out_of_bounds}
use amazon_dynamo_db.Strings.{Bytes}
use amazon_dynamo_db.Assoc.{same}
use amazon_dynamo_db.Block.{Block, block_create, block_destroy}
use amazon_dynamo_db.Entry.{Entry, entry_create, entry_destroy}
use amazon_dynamo_db.Messages.{StatisticsT}
use amazon_dynamo_db.Stub.{Link, rtable_put, rtable_get, rtable_del, rtable_size}
use amazon_dynamo_db.Stub.Listing.{
  rtable_get_keys, rtable_free_keys, rtable_get_table, rtable_free_entries, rtable_stats,
}

-- What stands before the first `c`, and what stands after it.
unfoldable pub until : ℕ → Bytes → Bytes
until c [] = []
until c (x ∷ xs) = if x == c then [] else x ∷ until c xs

unfoldable pub after : ℕ → Bytes → Bytes
after c [] = []
after c (x ∷ xs) = if x == c then xs else after c xs

unfoldable pub skip : ℕ → Bytes → Bytes
skip c [] = []
skip c (x ∷ xs) = if x == c then skip c xs else x ∷ xs

-- `strtok(s, " ")`: the token, or NULL, and what the next call goes on with.
token_of : Bytes → Option Bytes × Bytes
token_of [] = (none, [])
token_of (x ∷ xs) = (some (until b' ' (x ∷ xs)), after b' ' (x ∷ xs))

strtok : Bytes → Option Bytes × Bytes
strtok s = token_of (skip b' ' s)

-- `strtok(NULL, "\0")`: all that is left, or NULL.
strtok_rest : Bytes → Option Bytes
strtok_rest [] = none
strtok_rest (x ∷ xs) = some (x ∷ xs)

-- `blank` is a line without a token, `incomplete` a `put` with too few words.
pub data Request : Type 0 where
  blank : Request
  put : Bytes → Bytes → Request
  get : Option Bytes → Request
  del : Option Bytes → Request
  size : Request
  getkeys : Request
  gettable : Request
  stats : Request
  quit : Request
  incomplete : Request
  unknown : Request

put_words : Option Bytes → Option Bytes → Request
put_words none value = incomplete
put_words (some key) none = incomplete
put_words (some key) (some value) = put key value

put_of : Option Bytes × Bytes → Request
put_of (key, rest) = put_words key (strtok_rest rest)

request_of : Option Bytes × Bytes → Request
request_of (none, rest) = blank
request_of (some token, rest) =
    if same token (b'p' ∷ b'u' ∷ b't' ∷ [])
    then put_of (strtok rest)
    else (if same token (b'g' ∷ b'e' ∷ b't' ∷ [])
        then get (strtok_rest rest)
        else (if same token (b'd' ∷ b'e' ∷ b'l' ∷ [])
            then del (strtok_rest rest)
            else (if same token (b's' ∷ b'i' ∷ b'z' ∷ b'e' ∷ [])
                then size
                else (if same token (b'g' ∷ b'e' ∷ b't' ∷ b'k' ∷ b'e' ∷ b'y' ∷ b's' ∷ [])
                    then getkeys
                    else (if same token (b'g' ∷ b'e' ∷ b't' ∷ b't' ∷ b'a' ∷ b'b' ∷ b'l' ∷ b'e' ∷ [])
                        then gettable
                        else (if same token (b's' ∷ b't' ∷ b'a' ∷ b't' ∷ b's' ∷ [])
                            then stats
                            else (if same token (b'q' ∷ b'u' ∷ b'i' ∷ b't' ∷ [])
                                then quit
                                else unknown)))))))

-- `fgets(comando, 1024, stdin)`, again and again: a line ends after its line feed or 1023 bytes. `begun`
-- is what has been typed of a line; the last one may not be complete.
fgets_lines : Bytes → Bytes → List Bytes
fgets_lines begun [] = []
fgets_lines begun (c ∷ input) = elim ((c == b'\n') || (length begun == 1022)) [
  | true ↦ (begun ++ c ∷ []) ∷ fgets_lines [] input
  | false ↦ fgets_lines (begun ++ c ∷ []) input
]

pub read_lines : Bytes → List Bytes
read_lines input = fgets_lines [] input

-- The request of a line that `fgets` has read.
pub parse : Bytes → Request
parse line = request_of (strtok (until b'\n' (until 0 line)))

-- What is printed.
pub data Output : Type 0 where
  stored : Output
  not_stored : Output
  value_of : Bytes → Bytes → Output
  value_null : Bytes → Output
  no_value : Output
  removed : Output
  not_removed : Output
  size_of : ℤ → Output
  no_size : Output
  keys_title : Output
  key_line : Bytes → Output
  no_keys : Output
  table_title : Output
  entry_line : Bytes → Option Bytes → Output
  key_null : Output
  no_table : Output
  stats_lines : StatisticsT → Output
  invalid_command : Output
  command_list : Output
  no_line : Output
  ending : Output
  not_ended : Output

-- A string that `%s` prints ends at the first 0 of its block.
unfoldable pub print_string : Bytes → M Bytes
print_string [] = crash out_of_bounds
print_string (b ∷ bs) = if b == 0 then pure [] else (do rest ← print_string bs; pure (b ∷ rest))

-- `printf` prints a NULL string as a text of its own.
print_data : Option Bytes → M (Option Bytes)
print_data none = pure none
print_data (some data_) = do text ← print_string data_; pure (some text)

-- sizeof(value_copy), the size of a pointer.
abbrev pub sizeof_value_copy : ℕ
sizeof_value_copy = 8

-- `strdup`: the bytes of the copy, its end included.
abbrev strdup_key : Bytes → M (Option Bytes)
strdup_key s = do granted ← malloc (length s + 1); pure (if granted then some s else none)

abbrev strdup_value : Bytes → M (Option Bytes)
strdup_value s = do
  granted ← malloc (length s + 1)
  pure (if granted then some (s ++ 0 ∷ []) else none)

put_result : ℤ → Output
put_result code = if code ==ℤ pos 0 then stored else not_stored

del_result : ℤ → Output
del_result code = if code ==ℤ pos 0 then removed else not_removed

size_result : ℤ → Output
size_result n = if n ==ℤ minus_one then no_size else size_of n

-- The data of the block that `rtable_get` returned.
value_output : Bytes → Option Bytes → M Output
value_output key none = pure (value_null key)
value_output key (some data_) = do text ← print_string data_; pure (value_of key text)

-- `rtable_get` of no key returns NULL.
get_result : Option Bytes → Option Block → M Output
get_result key none = pure no_value
get_result none (some block) = pure no_value
get_result (some key) (some block) = value_output key block.data_

entry_output : Entry → M Output
entry_output e = elim e.key [
  | none ↦ pure key_null
  | some key ↦ (do value ← deref e.value; text ← print_data value.data_; pure (entry_line key text))
]

entries_output : List Entry → M (List Output)
entries_output [] = pure []
entries_output (e ∷ es) = do line ← entry_output e; lines ← entries_output es; pure (line ∷ lines)

key_lines : List Bytes → List Output
key_lines [] = []
key_lines (k ∷ ks) = key_line k ∷ key_lines ks

keys_result : Option (List Bytes) → M (List Output)
keys_result none = pure (no_keys ∷ [])
keys_result (some ks) = do rtable_free_keys (some ks); pure (keys_title ∷ key_lines ks)

table_result : Option (List Entry) → M (List Output)
table_result none = pure (no_table ∷ [])
table_result (some es) = do
  lines ← entries_output es
  rtable_free_entries (some es)
  pure (table_title ∷ lines)

-- What a line leads to: the next line, the end of the program, or the next line with two connections
-- that are freed, of which nothing more is said.
pub data Turn (S : Type 0) : Type 0 where
  goes_on : List Output → S → Turn S
  ends : List Output → S → Turn S
  dangles : List Output → S → Turn S

module _ {S : Type 0} (rtable_head rtable_tail : Option (Link S)) where
  pub put_command : Bytes → Bytes → S → M (List Output × S)
  put_command key value s = do
    key_copy ← strdup_key key
    value_copy ← strdup_value value
    value_block ← block_create (pos sizeof_value_copy) value_copy
    entry ← entry_create key_copy value_block
    (code, s') ← rtable_put rtable_head entry s
    _ ← entry_destroy entry
    pure (put_result code ∷ [], s')

  pub get_command : Option Bytes → S → M (List Output × S)
  get_command key s = do
    (block, s') ← rtable_get rtable_tail key s
    line ← get_result key block
    _ ← block_destroy block
    pure (line ∷ [], s')

  del_command : Option Bytes → S → M (List Output × S)
  del_command key s = do (code, s') ← rtable_del rtable_head key s; pure (del_result code ∷ [], s')

  size_command : S → M (List Output × S)
  size_command s = do (n, s') ← rtable_size rtable_tail s; pure (size_result n ∷ [], s')

  getkeys_command : S → M (List Output × S)
  getkeys_command s = do
    (ks, s') ← rtable_get_keys rtable_tail s
    lines ← keys_result ks
    pure (lines, s')

  gettable_command : S → M (List Output × S)
  gettable_command s = do
    (es, s') ← rtable_get_table rtable_tail s
    lines ← table_result es
    pure (lines, s')

  -- Without an answer the statistics are NULL, and are read all the same.
  stats_command : S → M (List Output × S)
  stats_command s = do
    (answer, s') ← rtable_stats rtable_tail s
    counters ← deref answer
    free
    pure (stats_lines counters ∷ [], s')

  -- The connection to the tail is ended only if that to the head could not be.
  quit_command : Bool → Bool → S → M (Turn S)
  quit_command head_closes tail_closes s = do
    free
    free
    if head_closes then pure (ends (ending ∷ []) s) else (do
      free
      free
      if tail_closes
          then pure (ends (not_ended ∷ ending ∷ []) s)
          else (do free; free; pure (dangles (not_ended ∷ not_ended ∷ []) s)))

  going_on : M (List Output × S) → M (Turn S)
  going_on x = do (lines, s) ← x; pure (goes_on lines s)

  -- `close` succeeds on the connection to the head and to the tail, or fails.
  pub execute : Bool → Bool → Request → S → M (Turn S)
  execute hc tc blank s = pure (goes_on [] s)
  execute hc tc (put key value) s = going_on (put_command key value s)
  execute hc tc (get key) s = going_on (get_command key s)
  execute hc tc (del key) s = going_on (del_command key s)
  execute hc tc size s = going_on (size_command s)
  execute hc tc getkeys s = going_on (getkeys_command s)
  execute hc tc gettable s = going_on (gettable_command s)
  execute hc tc stats s = going_on (stats_command s)
  execute hc tc quit s = quit_command hc tc s
  execute hc tc incomplete s = pure (goes_on (invalid_command ∷ []) s)
  execute hc tc unknown s = pure (goes_on (invalid_command ∷ command_list ∷ []) s)

  -- A round of the loop of `main`; at the end of the input `fgets` returns NULL.
  pub read_command : Bool → Bool → Option Bytes → S → M (Turn S)
  read_command hc tc none s = pure (goes_on (no_line ∷ []) s)
  read_command hc tc (some line) s = execute hc tc (parse line) s
