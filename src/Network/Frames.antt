-- ===== src/Network/Frames.antt =====
-- Frames on a connection: what `network_send` writes and what `network_receive` makes of it.
use amazon_dynamo_db.Prelude.{
  ℕ, ◌+◌, ◌%◌, ◌^◌, ◌≤◌, ◌<◌, ◌≡◌, refl, ap, sym, ◌∙◌, ℤ, pos, ◌==◌, Option, none, some,
  if◌then◌else◌, List, [], ◌++◌, length, take, drop, arith, take-length, drop-length, length-append,
  take-append_le,
}
use mathlib.Core.List.{append_assoc}
use native.Mathlib.Decide.{ℕ_discrete}
use amazon_dynamo_db.Memory.Spend.{IsAmple, spend, malloc-IsAmple, free-spend}
use amazon_dynamo_db.Strings.{Bytes}
use amazon_dynamo_db.Sockets.{Socket, Progress, Arrival, write_all, read_all}
use amazon_dynamo_db.Sockets.Delivery.{incoming, patience, write_all-sent, read_all-incoming}
use amazon_dynamo_db.Messages.{MessageT}
use amazon_dynamo_db.Network.{
  Codec, World, Outcome, done, update, write_fd, read_fd, htons, ntohs, finish, network_send,
  network_receive, receive_body,
}

-- The bytes of a message on the wire.
abbrev pub frame : Codec → MessageT → Bytes
frame codec msg = htons (length (codec.pack msg)) ++ codec.pack msg

pub update_self : (f : ℕ → Socket) (fd : ℕ) (s : Socket) → update f fd s fd ≡ s
update_self f fd s = ground arith

pub write_fd-sent :
    (fd : ℕ) (buf : Bytes) (w : World) (s : Socket)
    → w.sockets fd ≡ s
    → length buf ≤ patience s.progress
    → (rest : List Progress) × (write_fd fd buf w
        ≡ done (pos (length buf)) (record w {
          sockets = update w.sockets fd (record s { progress = rest; sent = s.sent ++ buf });
        }))
      × (patience s.progress ≤ patience rest + length buf)
unfolding write_fd
write_fd-sent fd buf w s e h =
    let (rest, run, left) = write_all-sent s buf h in
    (rest, ground (arith, run, ap (λ x. write_all x buf) e), left)

pub read_fd-incoming :
    (fd len : ℕ) (w : World) (s : Socket)
    → w.sockets fd ≡ s
    → len ≤ length (incoming s.arrivals)
    → (rest : List Arrival) × (read_fd fd len w
        ≡ done
            (pos len, take len (incoming s.arrivals))
            (record w { sockets = update w.sockets fd (record s { arrivals = rest }) }))
      × (incoming rest ≡ drop len (incoming s.arrivals))
unfolding read_fd
read_fd-incoming fd len w s e h =
    let (rest, run, left) = read_all-incoming s len h in
    (rest, ground (arith, run, ap (λ x. read_all x len) e), left)

-- `out` returns 0, and `bytes` have gone out on the connection.
abbrev pub Sends : ℕ → Bytes → World → Outcome ℤ → Type 0
Sends fd bytes w out =
    (w' : World) × (out ≡ done (pos 0) w') × ((w'.sockets fd).sent ≡ (w.sockets fd).sent ++ bytes)

-- network_send writes the size of the packed message modulo 2^16 in two bytes, most significant
-- first, and then its bytes, and returns 0, if the connection takes that many bytes and malloc
-- grants every request.
pub network_send-frame :
    (codec : Codec) (fd : ℕ) (msg : MessageT) (w : World)
    → IsAmple w.memory
    → length (codec.pack msg) + 2 ≤ patience (w.sockets fd).progress
    → Sends fd (frame codec msg) w (network_send codec fd msg w)
unfolding network_send finish htons
network_send-frame codec fd msg w ample h =
    let buffer = codec.pack msg in
    let header = htons (length buffer) in
    let s = w.sockets fd in
    let w₁ : World = record w { memory = spend 1 0 w.memory } in
    let (ps, first, left) = write_fd-sent fd header w₁ s refl (omega arith) in
    let s₂ : Socket = record s { progress = ps; sent = s.sent ++ header } in
    let f₂ = update w.sockets fd s₂ in
    let w₂ : World = record w₁ { sockets = f₂ } in
    let here = update_self w.sockets fd s₂ in
    let (qs, second, _) = write_fd-sent fd buffer w₂ s₂ here (omega arith) in
    let s₃ : Socket = record s₂ { progress = qs; sent = s₂.sent ++ buffer } in
    let w₃ : World = record w₂ { memory = spend 1 1 w.memory; sockets = update f₂ fd s₃ } in
    (
      w₃,
      ground (
        arith,
        malloc-IsAmple (length buffer) ample,
        first,
        second,
        free-spend (spend 1 0 w.memory),
      ),
      ap (λ x. x.sent) (update_self f₂ fd s₃) ∙ append_assoc s.sent header buffer,
    )

-- What a connection delivers next, for a run that ends in a world.
abbrev pub Receives : Option MessageT → ℕ → Bytes → Outcome (Option MessageT) → Type 0
Receives msg fd rest out =
    (w' : World) × (out ≡ done msg w') × (incoming (w'.sockets fd).arrivals ≡ rest)

pub ntohs-htons : (n : ℕ) (b : Bytes) → ntohs (htons n ++ b) ≡ n % 2 ^ 16
unfolding htons ntohs
ntohs-htons n b = omega arith

module _ (codec : Codec) (fd : ℕ) (w : World) (ample : IsAmple w.memory) where
  -- The body: `n` bytes of what arrives are unpacked.
  receive_body-incoming :
      (n : ℕ) (s : Socket) (f : ℕ → Socket)
      → 0 < n
      → n ≤ length (incoming s.arrivals)
      → Receives
          (codec.unpack (take n (incoming s.arrivals)))
          fd
          (drop n (incoming s.arrivals))
          (receive_body codec fd n (record w { sockets = update f fd s }))
  unfolding receive_body
  receive_body-incoming n s f pos_n enough =
      let w₁ : World = record w { memory = spend 1 0 w.memory; sockets = update f fd s } in
      let here = update_self f fd s in
      let (as_, read, left) = read_fd-incoming fd n w₁ s here enough in
      let s₂ : Socket = record s { arrivals = as_ } in
      let g = update (update f fd s) fd s₂ in
      (
        record w { memory = spend 1 1 w.memory; sockets = g },
        ground (arith, malloc-IsAmple n ample, read, free-spend (spend 1 0 w.memory)),
        ap (λ x. incoming x.arrivals) (update_self (update f fd s) fd s₂) ∙ left,
      )

  -- Of any framed message network_receive unpacks as many bytes as the size modulo 2^16, gives NULL
  -- when that is 0, and leaves the other bytes to be read as the next frame, when malloc grants
  -- every request.
  pub network_receive-frame :
      (msg : MessageT) (rest : Bytes)
      → incoming (w.sockets fd).arrivals ≡ frame codec msg ++ rest
      → let n = length (codec.pack msg) % 2 ^ 16 in
        Receives
          (if n == 0 then none else codec.unpack (take n (codec.pack msg)))
          fd
          (drop n (codec.pack msg ++ rest))
          (network_receive codec fd w)
  unfolding network_receive htons
  network_receive-frame msg rest h =
      let p = codec.pack msg in
      let n : ℕ = length p % 2 ^ 16 in
      let s = w.sockets fd in
      let sized = length-append p rest in
      let wide = ap length h in
      let (as_, read, left) = read_fd-incoming fd 2 w s refl (rw h (omega arith)) in
      let s₁ : Socket = record s { arrivals = as_ } in
      let body : incoming as_ ≡ p ++ rest = left ∙ ap (drop 2) h in
      let header : take 2 (incoming s.arrivals) ≡ htons (length p) ++ [] = ap (take 2) h in
      let size : ntohs (take 2 (incoming s.arrivals)) ≡ n =
        ap ntohs header ∙ ntohs-htons (length p) [] in
      elim (ℕ_discrete n 0) [
        | yes zero_n ↦ (
          record w { sockets = update w.sockets fd s₁ },
          ground (arith, read, size, zero_n),
          ap (λ x. incoming x.arrivals) (update_self w.sockets fd s₁)
              ∙ (body ∙ sym (ap (λ k. drop k (p ++ rest)) zero_n)),
        )
        | no some_n ↦
            let fits : n ≤ length p = omega arith in
            let all_here = ap length body in
            let got : take n (incoming as_) ≡ take n p =
              ap (take n) body ∙ take-append_le n p rest fits in
            let (w', run, left') =
              receive_body-incoming n s₁ w.sockets (omega arith) (omega arith) in
            (
              w',
              ground (arith, read, size, some_n, run, ap codec.unpack got),
              left' ∙ ap (drop n) body,
            )
      ]

  -- A message that packs into at least one and less than 2^16 bytes, and that the codec unpacks
  -- again, is received as it was framed, however the connection cuts the frame up, and what follows
  -- is left for the next call, when malloc grants every request.
  pub network_receive-small :
      (msg : MessageT) (rest : Bytes)
      → incoming (w.sockets fd).arrivals ≡ frame codec msg ++ rest
      → (0 < length (codec.pack msg)) × (length (codec.pack msg) < 2 ^ 16)
      → codec.unpack (codec.pack msg) ≡ some msg
      → Receives (some msg) fd rest (network_receive codec fd w)
  network_receive-small msg rest h sized lawful =
      let p = codec.pack msg in
      let n : ℕ = length p in
      let (w', run, left) = network_receive-frame msg rest h in
      let modulo : n % 2 ^ 16 ≡ n = omega arith in
      (
        w',
        ground (arith, run, modulo, take-length p, lawful),
        left ∙ (ap (λ k. drop k (p ++ rest)) modulo ∙ drop-length p rest),
      )
