-- ===== src/Chain.antt =====
-- The chain of servers in source/server_network.c and source/client_hashtable.c. ZooKeeper lists the
-- nodes of the servers, each with a number; a server forwards to the next one and copies its table
-- from the previous one, and a client uses the first and the last.
pub mod Nearest
pub mod Neighbours
pub mod Watcher
pub mod Ends
pub mod Client
use amazon_dynamo_db.Prelude.{
  ℕ, zero, suc, ◌+◌, ℤ, pos, negsuc, minus_one, is_less, ◌==ℤ◌, Bool, true, false, not, Option,
  none, some, if◌then◌else◌, List, [], ◌∷◌, ◌++◌, ◌&&◌, take, drop,
}
use amazon_dynamo_db.Strings.{Bytes}
use amazon_dynamo_db.Assoc.{same}
use amazon_dynamo_db.Atoi.{atoi}

-- "node"
abbrev pub begining : Bytes
begining = b'n' ∷ b'o' ∷ b'd' ∷ b'e' ∷ []

-- "node9999999999", in the place of no next node, and "node0000000000", of no previous one.
abbrev pub no_next : Bytes
no_next = begining ++ (57 ∷ 57 ∷ 57 ∷ 57 ∷ 57 ∷ 57 ∷ 57 ∷ 57 ∷ 57 ∷ 57 ∷ [])

abbrev pub no_previous : Bytes
no_previous = begining ++ (48 ∷ 48 ∷ 48 ∷ 48 ∷ 48 ∷ 48 ∷ 48 ∷ 48 ∷ 48 ∷ 48 ∷ [])

unfoldable pub get_node_id : Bytes → ℤ
get_node_id str = if same (take 4 str) begining then atoi (drop 4 str) else minus_one

-- A round of the loop of `child_watcher`, and the loop: the nearest node above this one.
unfoldable pub nearer_above : ℤ → Bytes → Bytes → Bytes
nearer_above node_id current max =
    if is_less node_id (get_node_id current) && is_less (get_node_id current) (get_node_id max)
    then current
    else max

unfoldable pub scan_next : ℤ → List Bytes → Bytes → Bytes
scan_next node_id [] max = max
scan_next node_id (current ∷ children) max =
    scan_next node_id children (nearer_above node_id current max)

-- A round of the loop of `get_previous_server`, and the loop: the nearest node below this one.
unfoldable pub nearer_below : ℤ → Bytes → Bytes → Bytes
nearer_below node_id current min =
    if is_less (get_node_id current) node_id && is_less (get_node_id min) (get_node_id current)
    then current
    else min

unfoldable pub scan_previous : ℤ → List Bytes → Bytes → Bytes
scan_previous node_id [] min = min
scan_previous node_id (current ∷ children) min =
    scan_previous node_id children (nearer_below node_id current min)

-- `sprintf(path, "%s/%s", root_path, name)` with the root "/chain".
abbrev pub node_path : Bytes → Bytes
node_path name = b'/' ∷ b'c' ∷ b'h' ∷ b'a' ∷ b'i' ∷ b'n' ∷ b'/' ∷ name

-- "none"
abbrev pub none_address : Bytes
none_address = b'n' ∷ b'o' ∷ b'n' ∷ b'e' ∷ []

address_of : Option Bytes → Bytes
address_of none = none_address
address_of (some address) = address

-- `zoo_get` gives the data of a node, its address. Memory for the paths is there.
unfoldable pub get_previous_server : (Bytes → Option Bytes) → ℤ → List Bytes → Bytes
unfolding address_of
get_previous_server zoo_get node_id children =
    let min = scan_previous node_id children no_previous in
    if same min no_previous then none_address else address_of (zoo_get (node_path min))
