-- ===== src/Sockets/Delivery.antt =====
-- What `write_all` and `read_all` move, when the system cuts it up and interrupts.
use amazon_dynamo_db.Prelude.{
  ℕ, zero, suc, ◌-◌, ◌+◌, ◌≤◌, ◌≡◌, refl, sym, ◌∙◌, pos, some, List, [], ◌∷◌, ◌++◌, length, leb,
  take, drop, arith, Bool-cases, inl, inr, length-append, length-drop, take-append-drop,
  take-append_ge, take-append_le, drop-append_ge, drop-append_le,
}
use amazon_dynamo_db.Strings.{Bytes}
use amazon_dynamo_db.Sockets.{
  Arrival, Progress, Socket, chunk, read_interrupted, read_failed, hung_up, wrote,
  write_interrupted, write_failed, write_loop, sent_more, write_all, after_write, read_loop,
  read_more, read_all, after_read,
}

-- The bytes that arrive before an error or the end.
unfoldable pub incoming : List Arrival → Bytes
incoming [] = []
incoming (chunk c ∷ as_) = c ++ incoming as_
incoming (read_interrupted ∷ as_) = incoming as_
incoming (read_failed ∷ as_) = []
incoming (hung_up ∷ as_) = []

-- How many writes take at least one byte before an error or a write of nothing.
unfoldable pub patience : List Progress → ℕ
patience [] = 0
patience (wrote zero ∷ ps) = 0
patience (wrote (suc n) ∷ ps) = suc (patience ps)
patience (write_interrupted ∷ ps) = patience ps
patience (write_failed ∷ ps) = 0

write_loop-all :
    (ps : List Progress) (buf : Bytes) (size : ℕ)
    → length buf ≤ patience ps
    → (rest : List Progress) × (write_loop ps buf size ≡ some (pos size, rest, buf))
      × (patience ps ≤ patience rest + length buf)
unfolding write_loop patience sent_more
write_loop-all ps [] size h = (ps, ground arith, omega arith)
write_loop-all [] (b ∷ buf) size h = absurd (omega arith)
write_loop-all (write_interrupted ∷ ps) (b ∷ buf) size h = write_loop-all ps (b ∷ buf) size h
write_loop-all (write_failed ∷ ps) (b ∷ buf) size h = absurd (omega arith)
write_loop-all (wrote zero ∷ ps) (b ∷ buf) size h = absurd (omega arith)
write_loop-all (wrote (suc n) ∷ ps) (b ∷ buf) size h =
    let shorter = length-drop n buf in
    let (rest, run, left) = write_loop-all ps (drop n buf) size (omega arith) in
    (rest, ground (arith, run, take-append-drop n buf), omega arith)

-- write_all writes the whole buffer in order and returns its length, whatever the single calls of
-- write take and however often a signal interrupts them, if as many calls as the buffer has bytes
-- take something before an error.
pub write_all-sent :
    (s : Socket) (buf : Bytes)
    → length buf ≤ patience s.progress
    → (rest : List Progress) × (write_all s buf
        ≡ some (pos (length buf), record s { progress = rest; sent = s.sent ++ buf }))
      × (patience s.progress ≤ patience rest + length buf)
unfolding write_all after_write
write_all-sent s buf h =
    let (rest, run, left) = write_loop-all s.progress buf (length buf) h in
    (rest, ground (arith, run), left)

read_loop-incoming :
    (as_ : List Arrival) (len size : ℕ)
    → len ≤ length (incoming as_)
    → (rest : List Arrival) × (read_loop as_ len size
        ≡ some (pos size, take len (incoming as_), rest))
      × (incoming rest ≡ drop len (incoming as_))
unfolding read_loop incoming read_more
read_loop-incoming as_ zero size h = (as_, ground arith, refl)
read_loop-incoming [] (suc len) size h = absurd (omega arith)
read_loop-incoming (read_interrupted ∷ as_) (suc len) size h =
    read_loop-incoming as_ (suc len) size h
read_loop-incoming (read_failed ∷ as_) (suc len) size h = absurd (omega arith)
read_loop-incoming (hung_up ∷ as_) (suc len) size h = absurd (omega arith)
read_loop-incoming (chunk c ∷ as_) (suc len) size h =
    let total = length-append c (incoming as_) in
    elim (Bool-cases (leb (length c) (suc len))) [
      | inl short ↦
          let le : length c ≤ suc len = ground arith in
          let (rest, run, left) = read_loop-incoming as_ (suc len - length c) size (omega arith) in
          (
            rest,
            rw short (ground (arith, run, take-append_ge (suc len) c (incoming as_) le)),
            left ∙ sym (drop-append_ge (suc len) c (incoming as_) le),
          )
      | inr long ↦
          let le : suc len ≤ length c = ground arith in
          (
            chunk (drop (suc len) c) ∷ as_,
            rw long (ground (arith, take-append_le (suc len) c (incoming as_) le)),
            sym (drop-append_le (suc len) c (incoming as_) le),
          )
    ]

-- read_all returns the first bytes that arrive, as many as were asked for, in whatever pieces they
-- come and however often a signal interrupts, and leaves the others, if that many bytes arrive
-- before an error or the end.
pub read_all-incoming :
    (s : Socket) (len : ℕ)
    → len ≤ length (incoming s.arrivals)
    → (rest : List Arrival) × (read_all s len
        ≡ some (pos len, take len (incoming s.arrivals), record s { arrivals = rest }))
      × (incoming rest ≡ drop len (incoming s.arrivals))
unfolding read_all after_read
read_all-incoming s len h =
    let (rest, run, left) = read_loop-incoming s.arrivals len len h in
    (rest, ground (arith, run), left)

pub read_all-hung_up :
    (s : Socket) (len : ℕ) (as_ : List Arrival)
    → s.arrivals ≡ hung_up ∷ as_
    → read_all s (suc len) ≡ some (pos 0, [], record s { arrivals = hung_up ∷ as_ })
unfolding read_all after_read read_loop
read_all-hung_up s len as_ h = ground (arith, h)
