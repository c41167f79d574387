-- ===== src/Sockets.antt =====
-- source/message.c: all of a buffer is written to a socket or read from one, whatever a single call
-- of `write` or `read` moves. What the system answers to these calls is given in advance.
pub mod Delivery
use amazon_dynamo_db.Prelude.{
  ℕ, zero, suc, ◌-◌, ◌+◌, ℤ, pos, minus_one, Option, none, some, if◌then◌else◌, List, [], ◌∷◌, ◌++◌,
  length, leb, take, drop, ◌==◌,
}
use amazon_dynamo_db.Strings.{Bytes}

-- What `read` finds: bytes, a signal, an error, or the end of the connection.
pub data Arrival : Type 0 where
  chunk : Bytes → Arrival
  read_interrupted : Arrival
  read_failed : Arrival
  hung_up : Arrival

-- What `write` does: it takes some bytes, is interrupted by a signal, or fails.
pub data Progress : Type 0 where
  wrote : ℕ → Progress
  write_interrupted : Progress
  write_failed : Progress

-- A connection: what will arrive, what writes will do, and the bytes that were written.
pub record Socket : Type 0 where
  pub arrivals : List Arrival
  pub progress : List Progress
  pub sent : Bytes

sent_more : Bytes → Option (ℤ × List Progress × Bytes) → Option (ℤ × List Progress × Bytes)
sent_more now none = none
sent_more now (some (res, ps, later)) = some (res, ps, now ++ later)

-- The result, the answers that are left and the bytes that went out; `none` while the call waits.
-- `buf` is what is left to write.
write_loop : List Progress → Bytes → ℕ → Option (ℤ × List Progress × Bytes)
write_loop ps [] bufsize = some (pos bufsize, ps, [])
write_loop [] (b ∷ buf) bufsize = none
write_loop (write_interrupted ∷ ps) (b ∷ buf) bufsize = write_loop ps (b ∷ buf) bufsize
write_loop (write_failed ∷ ps) (b ∷ buf) bufsize = some (minus_one, ps, [])
write_loop (wrote zero ∷ ps) (b ∷ buf) bufsize = some (pos 0, ps, [])
write_loop (wrote (suc n) ∷ ps) (b ∷ buf) bufsize =
    sent_more (b ∷ take n buf) (write_loop ps (drop n buf) bufsize)

after_write : Socket → Option (ℤ × List Progress × Bytes) → Option (ℤ × Socket)
after_write s none = none
after_write s (some (res, ps, out)) = some (res, record s { progress = ps; sent = s.sent ++ out })

pub write_all : Socket → Bytes → Option (ℤ × Socket)
write_all s buf = after_write s (write_loop s.progress buf (length buf))

read_more : Bytes → Option (ℤ × Bytes × List Arrival) → Option (ℤ × Bytes × List Arrival)
read_more now none = none
read_more now (some (res, later, as_)) = some (res, now ++ later, as_)

-- The result, the bytes that were read and what is still to arrive; `none` while the call waits.
-- `len` bytes are missing.
read_loop : List Arrival → ℕ → ℕ → Option (ℤ × Bytes × List Arrival)
read_loop as_ zero bufsize = some (pos bufsize, [], as_)
read_loop [] (suc len) bufsize = none
read_loop (read_interrupted ∷ as_) (suc len) bufsize = read_loop as_ (suc len) bufsize
read_loop (read_failed ∷ as_) (suc len) bufsize = some (minus_one, [], as_)
read_loop (hung_up ∷ as_) (suc len) bufsize = some (pos 0, [], hung_up ∷ as_)
read_loop (chunk c ∷ as_) (suc len) bufsize =
    let rest = read_loop as_ (suc len - length c) bufsize in
    if leb (length c) (suc len)
    then read_more c rest
    else some (pos bufsize, take (suc len) c, chunk (drop (suc len) c) ∷ as_)

after_read : Socket → Option (ℤ × Bytes × List Arrival) → Option (ℤ × Bytes × Socket)
after_read s none = none
after_read s (some (res, got, as_)) = some (res, got, record s { arrivals = as_ })

-- The result, and the bytes that the buffer then holds.
pub read_all : Socket → ℕ → Option (ℤ × Bytes × Socket)
read_all s len = after_read s (read_loop s.arrivals len len)
