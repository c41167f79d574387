-- ===== src/Startup/Outcomes.antt =====
-- How `server_network_init` ends.
use amazon_dynamo_db.Prelude.{
  ℕ, ◌≡◌, refl, ℤ, true, some, [], ◌∷◌, ◌++◌, drop, take, arith, ◌||◌, Bool-cases, inl, inr,
}
use amazon_dynamo_db.Memory.{ok, Memory, Run}
use amazon_dynamo_db.Memory.Spend.{IsAmple, spend, malloc-IsAmple}
use amazon_dynamo_db.Commands.{print_string}
use amazon_dynamo_db.Strings.{Bytes}
use amazon_dynamo_db.Assoc.{same}
use amazon_dynamo_db.Chain.{get_node_id}
use amazon_dynamo_db.Startup.{
  Setup, Started, listening, failed, exited, announce, check_name, register, open_socket,
  server_network_init, node_prefix, published, print_int, ip_port,
}

-- A server that starts listens on the new socket, one that fails has closed it, and no other.
abbrev pub Tidy : Setup → ℕ → Started → Type 0
Tidy s fd (listening sockfd node_id buffer) =
    (sockfd ≡ fd) × (node_id ≡ get_node_id (drop 7 s.this_node_path))
Tidy s fd (failed closed) = closed ≡ fd ∷ []
Tidy s fd exited = Unit {0}

-- The run ends, and the server is started, has failed or has left in this way.
abbrev pub EndsTidy : Setup → ℕ → Run (Started × Memory) → Type 0
EndsTidy s fd run = (started : Started) × (m : Memory) × (run ≡ ok (started, m)) × Tidy s fd started

published-ok :
    (rest : Bytes) (port : ℤ) (m : Memory)
    → published (0 ∷ rest) port m ≡ ok (take 15 (ip_port ++ b':' ∷ print_int port), m)
unfolding published print_string
published-ok rest port m = refl

announce-EndsTidy :
    (s : Setup) (rest : Bytes) (fd : ℕ) (port : ℤ) (m : Memory)
    → s.behind ≡ 0 ∷ rest
    → EndsTidy s fd (announce s fd port m)
unfolding announce
announce-EndsTidy s rest fd port m h =
    let buffer : Bytes = take 15 (ip_port ++ b':' ∷ print_int port) in
    let wrote = published-ok rest port m in
    elim (Bool-cases s.zoo_set) [
      | inl set ↦ (
        listening fd (get_node_id (drop 7 s.this_node_path)) buffer,
        m,
        ground (arith, h, wrote, set),
        (refl, refl),
      )
      | inr unset ↦ (exited, m, ground (arith, h, wrote, unset), tt)
    ]

register-EndsTidy :
    (s : Setup) (rest : Bytes) (fd : ℕ) (port : ℤ) (m : Memory)
    → IsAmple m
    → s.behind ≡ 0 ∷ rest
    → EndsTidy s fd (register s fd port m)
unfolding register check_name
register-EndsTidy s rest fd port m ample h =
    let m' = spend 1 0 m in
    let asked = malloc-IsAmple 1024 ample in
    elim (Bool-cases (s.has_root || s.creates_root)) [
      | inl root ↦ elim (Bool-cases (same (take 11 s.this_node_path) node_prefix)) [
        | inl proper ↦
            let (started, m'', run, tidy) = announce-EndsTidy s rest fd port m' h in
            (started, m'', ground (arith, asked, root, proper, run), tidy)
        | inr other ↦ (exited, m', ground (arith, asked, root, other), tt)
      ]
      | inr missing ↦ (exited, m', ground (arith, asked, missing), tt)
    ]

-- server_network_init, once it has a lock and a socket, ends on every path: listening on that
-- socket with the number of its node, or with -1 after it has closed the socket, or with the exit
-- of the process, when every request for memory is granted and a zero byte stands behind the array
-- of the address.
pub server_network_init-EndsTidy :
    (s : Setup) (rest : Bytes) (fd : ℕ) (port : ℤ) {m : Memory}
    → IsAmple m
    → s.behind ≡ 0 ∷ rest
    → s.rwlock_init ≡ true
    → s.socket ≡ some fd
    → EndsTidy s fd (server_network_init s port m)
unfolding server_network_init open_socket
server_network_init-EndsTidy s rest fd port {m} ample h locked there =
    elim (Bool-cases s.setsockopt) [
      | inr unset ↦ (failed (fd ∷ []), m, ground (arith, locked, there, unset), refl)
      | inl set ↦ elim (Bool-cases s.bind) [
        | inr unbound ↦ (failed (fd ∷ []), m, ground (arith, locked, there, set, unbound), refl)
        | inl bound ↦ elim (Bool-cases s.listen) [
          | inr deaf ↦ (failed (fd ∷ []), m, ground (arith, locked, there, set, bound, deaf), refl)
          | inl hears ↦ elim (Bool-cases s.zookeeper_init) [
            | inr absent ↦ (exited, m, ground (arith, locked, there, set, bound, hears, absent), tt)
            | inl present ↦
                let (started, m', run, tidy) = register-EndsTidy s rest fd port m ample h in
                (started, m', ground (arith, locked, there, set, bound, hears, present, run), tidy)
          ]
        ]
      ]
    ]

-- A system in which every call succeeds.
abbrev pub all_well : ℕ → Bytes → Setup
all_well fd path = record {
  rwlock_init = true;
  socket = some fd;
  setsockopt = true;
  bind = true;
  listen = true;
  zookeeper_init = true;
  has_root = true;
  creates_root = true;
  this_node_path = path;
  behind = 0 ∷ [];
  zoo_set = true;
}

-- Where every call succeeds, the server listens with the number of its node.
pub server_network_init-listening :
    (fd : ℕ) (path : Bytes) (port : ℤ) {m : Memory}
    → IsAmple m
    → same (take 11 path) node_prefix ≡ true
    → server_network_init (all_well fd path) port m
      ≡ ok (
        listening fd (get_node_id (drop 7 path)) (take 15 (ip_port ++ b':' ∷ print_int port)),
        spend 1 0 m,
      )
unfolding server_network_init open_socket register check_name announce
server_network_init-listening fd path port {m} ample named =
    ground (arith, malloc-IsAmple 1024 ample, named, published-ok [] port (spend 1 0 m))
