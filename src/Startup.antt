-- ===== src/Startup.antt =====
-- The start of a server: `server_network_init` of source/server_network.c.
-- What the system and ZooKeeper answer is given in advance.
pub mod Address
pub mod Outcomes
use amazon_dynamo_db.Prelude.{
  ℕ, zero, suc, ◌+◌, ◌-◌, ◌%◌, ◌^◌, ◌<◌, ◌≤◌, ℤ, pos, negsuc, minus_one, Bool, ◌||◌, true, false,
  Option, none, some, if◌then◌else◌, List, [], ◌∷◌, ◌++◌, leb, ltb, take, drop, length,
}
use amazon_dynamo_db.Memory.{M, Memory, Run, ok, fault, null_pointer, pure, crash, ◌>>=◌, malloc}
use amazon_dynamo_db.Strings.{Bytes}
use amazon_dynamo_db.Assoc.{same}
use amazon_dynamo_db.Atoi.Decimal.{decimal}
use amazon_dynamo_db.Chain.{get_node_id}
use amazon_dynamo_db.Commands.{print_string}

-- `(short) n`
unfoldable pub short_of : ℤ → ℤ
short_of n =
    let low : ℕ = elim n [ pos k ↦ k % 2 ^ 16 | negsuc k ↦ 2 ^ 16 - suc (k % 2 ^ 16) ] in
    if ltb low (2 ^ 15) then pos low else negsuc (2 ^ 16 - suc low)

-- How many digits `%d` prints of a number below 10^5, as the value of a `short` is.
unfoldable pub width : ℕ → ℕ
width n =
    if ltb n 10
    then 1
    else (if ltb n 100 then 2 else (if ltb n 1000 then 3 else (if ltb n 10000 then 4 else 5)))

-- `%d` of a `short`.
unfoldable pub print_int : ℤ → Bytes
print_int (pos n) = decimal (width n) n
print_int (negsuc n) = b'-' ∷ decimal (width (suc n)) (suc n)

-- "127.0.0.1", in an array of nine characters that has no room for its end.
abbrev pub ip_port : Bytes
ip_port = b'1' ∷ b'2' ∷ b'7' ∷ b'.' ∷ b'0' ∷ b'.' ∷ b'0' ∷ b'.' ∷ b'1' ∷ []

-- `snprintf(buffer, sizeof(buffer), "%s:%d", ip_port, port)`: `%s` goes on in what stands behind the
-- array, and 15 characters fit.
pub published : Bytes → ℤ → M Bytes
published behind port = do
  address ← print_string (ip_port ++ behind)
  pure (take 15 (address ++ b':' ∷ print_int port))

-- Whether each call succeeds, in the order of the calls. `this_node_path` is what the buffer holds
-- after `zoo_create`, which is not tested.
pub record Setup : Type 0 where
  pub rwlock_init : Bool
  pub socket : Option ℕ
  pub setsockopt : Bool
  pub bind : Bool
  pub listen : Bool
  pub zookeeper_init : Bool
  pub has_root : Bool
  pub creates_root : Bool
  pub this_node_path : Bytes
  pub behind : Bytes
  pub zoo_set : Bool

-- The socket, the number of the node and its data; -1, with the sockets that were closed; or the end
-- of the process.
pub data Started : Type 0 where
  listening : ℕ → ℤ → Bytes → Started
  failed : List ℕ → Started
  exited : Started

-- "/chain/node"
abbrev node_prefix : Bytes
node_prefix = b'/' ∷ b'c' ∷ b'h' ∷ b'a' ∷ b'i' ∷ b'n' ∷ b'/' ∷ b'n' ∷ b'o' ∷ b'd' ∷ b'e' ∷ []

announce : Setup → ℕ → ℤ → M Started
announce s sockfd port = do
  buffer ← published s.behind port
  pure (
      if s.zoo_set then listening sockfd (get_node_id (drop 7 s.this_node_path)) buffer else exited)

check_name : Setup → ℕ → ℤ → M Started
check_name s sockfd port =
    if same (take 11 s.this_node_path) node_prefix then announce s sockfd port else pure exited

-- The node in ZooKeeper. The block for its path is not tested: `strncmp` reads through NULL.
register : Setup → ℕ → ℤ → M Started
register s sockfd port = do
  granted ← malloc 1024
  if s.has_root || s.creates_root
      then (if granted then check_name s sockfd port else crash null_pointer)
      else pure exited

open_socket : Setup → ℤ → ℕ → M Started
open_socket s port sockfd =
    if s.setsockopt
    then (if s.bind
        then (if s.listen
            then (if s.zookeeper_init then register s sockfd port else pure exited)
            else pure (failed (sockfd ∷ [])))
        else pure (failed (sockfd ∷ [])))
    else pure (failed (sockfd ∷ []))

pub server_network_init : Setup → ℤ → M Started
server_network_init s port =
    if s.rwlock_init
    then (elim s.socket [ none ↦ pure (failed []) | some sockfd ↦ open_socket s port sockfd ])
    else pure (failed [])
