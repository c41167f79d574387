-- ===== src/Network.antt =====
-- `network_send` and `network_receive` of source/server_network.c: a message travels as its packed
-- size, in two bytes, and its packed bytes. Packing is the work of protobuf-c, a parameter.
pub mod Frames
pub mod Effects
pub mod Keeps
use amazon_dynamo_db.Prelude.{
  ℕ, zero, suc, ◌+◌, ◌*◌, ◌/◌, ◌%◌, ◌^◌, ℤ, pos, negsuc, minus_one, ◌==ℤ◌, ◌==◌, is_positive,
  Option, none, some, if◌then◌else◌, List, [], ◌∷◌, length, get_or,
}
use amazon_dynamo_db.Memory
use amazon_dynamo_db.Memory.{Fault, Run, M, Memory, ok, fault}
use amazon_dynamo_db.Strings.{Bytes}
use amazon_dynamo_db.Sockets.{Socket, write_all, read_all}
use amazon_dynamo_db.Messages.{MessageT}

-- `message_t__pack`, whose result has the length `message_t__get_packed_size`, and
-- `message_t__unpack`.
pub record Codec : Type 0 where
  pub pack : MessageT → Bytes
  pub unpack : Bytes → Option MessageT

-- The memory, the connections by their descriptors, and the descriptors that were closed, the last
-- one first.
pub record World : Type 0 where
  pub memory : Memory
  pub sockets : ℕ → Socket
  pub closed : List ℕ

pub data Outcome (A : Type 0) : Type 0 where
  done : A → World → Outcome A
  waiting : Outcome A
  crashed : Fault → Outcome A

abbrev pub N : Type 0 → Type 0
N A = World → Outcome A

abbrev pub pure : {A : Type 0} → A → N A
pure a w = done a w

infixl 5 ◌>>=◌ ◌>>◌
abbrev pub ◌>>=◌ : {A B : Type 0} → N A → (A → N B) → N B
◌>>=◌ x f w = elim (x w) [ done a w' ↦ f a w' | waiting ↦ waiting | crashed e ↦ crashed e ]

abbrev pub ◌>>◌ : {B : Type 0} → N (Unit {0}) → N B → N B
x >> y = x >>= λ _. y

abbrev settle : {A : Type 0} → World → Run (A × Memory) → Outcome A
settle w (ok (a, m)) = done a (record w { memory = m })
settle w (fault e) = crashed e

-- Code that uses the allocator only.
abbrev pub lift : {A : Type 0} → M A → N A
lift x w = settle w (x w.memory)

abbrev pub update : (ℕ → Socket) → ℕ → Socket → ℕ → Socket
update f fd s x = if fd == x then s else f x

pub write_fd : ℕ → Bytes → N ℤ
write_fd fd buf w = elim (write_all (w.sockets fd) buf) [
  | none ↦ waiting
  | some (res, s) ↦ done res (record w { sockets = update w.sockets fd s })
]

pub read_fd : ℕ → ℕ → N (ℤ × Bytes)
read_fd fd len w = elim (read_all (w.sockets fd) len) [
  | none ↦ waiting
  | some (res, got, s) ↦ done (res, got) (record w { sockets = update w.sockets fd s })
]

-- `htons((uint16_t) n)` as it stands in memory, and `ntohs` of two bytes.
unfoldable pub htons : ℕ → Bytes
htons n = (n % 2 ^ 16 / 256) ∷ (n % 256) ∷ []

unfoldable pub ntohs : Bytes → ℕ
ntohs b = get_or b 0 0 * 256 + get_or b 1 0

-- The end of `network_send`: the buffer is freed on every way out.
finish : ℤ → N ℤ
finish code = do lift Memory.free; pure code

pub network_send : Codec → ℕ → MessageT → N ℤ
network_send codec fd msg = do
  let buffer = codec.pack msg
  granted ← lift (Memory.malloc (length buffer))
  if granted
      then (do
        n ← write_fd fd (htons (length buffer))
        if n ==ℤ pos 2
            then (do
              w ← write_fd fd buffer
              if w ==ℤ pos (length buffer) then finish (pos 0) else finish minus_one)
            else finish minus_one)
      else pure minus_one

-- The second half of `network_receive`, once the size is known not to be 0.
receive_body : Codec → ℕ → ℕ → N (Option MessageT)
receive_body codec fd nbytes = do
  granted ← lift (Memory.malloc nbytes)
  if granted
      then (do
        (n, buffer) ← read_fd fd nbytes
        lift Memory.free
        if is_positive n then pure (codec.unpack buffer) else pure none)
      else pure none

pub network_receive : Codec → ℕ → N (Option MessageT)
network_receive codec fd = do
  (n, header) ← read_fd fd 2
  if n ==ℤ pos 2
      then (if ntohs header == 0 then pure none else receive_body codec fd (ntohs header))
      else pure none
