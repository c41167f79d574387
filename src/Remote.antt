-- ===== src/Remote.antt =====
-- source/client_network.c and the connections of source/client_stub.c: how a client comes to a
-- server, asks it, and leaves it.
pub mod Exchange
pub mod Connect
use amazon_dynamo_db.Prelude.{
  ℕ, zero, suc, ◌+◌, ◌-◌, ◌%◌, ◌^◌, ◌<◌, ◌≡◌, ℤ, pos, negsuc, minus_one, ◌==ℤ◌, ◌==◌, Bool, true,
  false, Option, none, some, if◌then◌else◌, List, [], ◌∷◌, length, take, drop,
}
use amazon_dynamo_db.Memory
use amazon_dynamo_db.Memory.{Fault}
use amazon_dynamo_db.Strings.{Bytes}
use amazon_dynamo_db.Messages.{MessageT}
use amazon_dynamo_db.Network.{
  Codec, World, Outcome, done, waiting, crashed, N, pure, ◌>>=◌, ◌>>◌, lift, write_fd, read_fd,
  htons, ntohs,
}
use amazon_dynamo_db.Atoi.{atoi}

-- What the system answers: a new socket, the address that a text stands for, whether a connection is
-- made, and whether `close` fails. A result below 0 is an error.
pub record System (A : Type 0) : Type 0 where
  pub socket : Option ℕ
  pub inet_pton : Bytes → Option A
  pub connects : A → Bytes → Bool
  pub close_fails : ℕ → Bool

pub record Rtable : Type 0 where
  pub server_address : Bytes
  pub server_port : ℤ
  pub sockfd : ℕ

abbrev pub close : ℕ → N (Unit {0})
close fd w = done tt (record w { closed = fd ∷ w.closed })

-- `(uint16_t) port`
unfoldable pub port_bits : ℤ → ℕ
port_bits (pos n) = n % 2 ^ 16
port_bits (negsuc n) = (2 ^ 16 - suc (n % 2 ^ 16))

-- The first index of the character, as an `int`.
unfoldable pub get_index_of : Bytes → ℕ → ℕ → ℤ
get_index_of [] c i = minus_one
get_index_of (x ∷ xs) c i = if x == c then pos i else get_index_of xs c (i + 1)

module _ {A : Type 0} (sys : System A) where
  -- `connect`, once the address is known.
  connect_to : Bytes → ℤ → ℕ → A → N (Option Rtable)
  connect_to address port fd a =
      if sys.connects a (htons (port_bits port))
      then pure (some (record { server_address = address; server_port = port; sockfd = fd }))
      else (do close fd; pure none)

  convert : Bytes → ℤ → ℕ → Option A → N (Option Rtable)
  convert address port fd none = do close fd; pure none
  convert address port fd (some a) = connect_to address port fd a

  -- The table with its socket, or -1.
  network_connect : Bytes → ℤ → Option ℕ → N (Option Rtable)
  network_connect address port none = pure none
  network_connect address port (some fd) = convert address port fd (sys.inet_pton address)

  -- The two blocks are freed where there is no connection.
  connected : Option Rtable → N (Option Rtable)
  connected none = do lift Memory.free; lift Memory.free; pure none
  connected (some r) = pure (some r)

  -- The address, and the port after it.
  connect_parts : Bytes → ℤ → N (Option Rtable)
  connect_parts address (negsuc n) = do lift Memory.free; lift Memory.free; pure none
  connect_parts address (pos n) = network_connect address (pos n) sys.socket >>= connected

  -- By the index of the colon; the table has been allocated.
  split_address : Bytes → ℤ → N (Option Rtable)
  split_address address_port (negsuc n) = do lift Memory.free; pure none
  split_address address_port (pos index) = do
    granted ← lift (Memory.malloc (index + 1))
    if granted
        then connect_parts (take index address_port) (atoi (drop (index + 1) address_port))
        else (do lift Memory.free; pure none)

  -- sizeof(struct rtable_t)
  abbrev sizeof_rtable : ℕ
  sizeof_rtable = 16

  pub rtable_connect : Option Bytes → N (Option Rtable)
  rtable_connect none = pure none
  rtable_connect (some address_port) = do
    granted ← lift (Memory.malloc sizeof_rtable)
    if granted then split_address address_port (get_index_of address_port 58 0) else pure none

  -- The descriptor is gone also where `close` fails.
  network_close : Rtable → N ℤ
  network_close r = do close r.sockfd; pure (if sys.close_fails r.sockfd then minus_one else pos 0)

  pub rtable_disconnect : Option Rtable → N ℤ
  rtable_disconnect none = pure minus_one
  rtable_disconnect (some r) = do
    code ← network_close r
    lift Memory.free
    lift Memory.free
    pure (if code ==ℤ minus_one then minus_one else pos 0)

-- The answer of the server, once its size is known.
receive_answer : Codec → ℕ → ℕ → N (Option MessageT)
receive_answer codec fd size = do
  granted ← lift (Memory.malloc size)
  if granted
      then (do
        (n, buffer) ← read_fd fd size
        lift Memory.free
        pure (if n ==ℤ pos size then codec.unpack buffer else none))
      else pure none

read_answer : Codec → ℕ → N (Option MessageT)
read_answer codec fd = do
  (n, header) ← read_fd fd 2
  if n ==ℤ pos 2 then receive_answer codec fd (ntohs header) else pure none

-- A failure to send the message closes the connection, a failure to send its size does not.
pub network_send_receive : Codec → ℕ → MessageT → N (Option MessageT)
network_send_receive codec fd msg = do
  let buffer = codec.pack msg
  granted ← lift (Memory.malloc (length buffer))
  if granted
      then (do
        n ← write_fd fd (htons (length buffer))
        if n ==ℤ pos 2
            then (do
              sent ← write_fd fd buffer
              if sent ==ℤ pos (length buffer)
                  then (do lift Memory.free; read_answer codec fd)
                  else (do close fd; lift Memory.free; pure none))
            else (do lift Memory.free; pure none))
      else pure none
