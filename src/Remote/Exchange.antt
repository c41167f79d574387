-- ===== src/Remote/Exchange.antt =====
-- A message and its answer on one connection.
use amazon_dynamo_db.Prelude.{
  list_laws, ℕ, ◌+◌, ◌%◌, ◌^◌, ◌≤◌, ◌<◌, ◌≡◌, refl, ap, ◌∙◌, Option, some, [], ◌++◌, length, take,
  drop, arith, take-length, drop-length, length-append, take-append_le,
}
use amazon_dynamo_db.Memory.Spend.{IsAmple, IsAmple-spend, spend, malloc-IsAmple, free-spend}
use amazon_dynamo_db.Strings.{Bytes}
use amazon_dynamo_db.Sockets.{Socket}
use amazon_dynamo_db.Sockets.Delivery.{incoming, patience}
use amazon_dynamo_db.Messages.{MessageT}
use amazon_dynamo_db.Network.{Codec, World, Outcome, done, update, htons, ntohs}
use amazon_dynamo_db.Network.Frames.{
  frame, update_self, write_fd-sent, read_fd-incoming, ntohs-htons,
}
use amazon_dynamo_db.Remote.{receive_answer, read_answer, network_send_receive}

-- The run ends with this result, the connection has sent `out`, and delivers `rest` next.
abbrev pub Exchanges :
    Option MessageT → ℕ → Bytes → Bytes → World → Outcome (Option MessageT) → Type 0
Exchanges res fd out rest w o =
    (w' : World) × (o ≡ done res w')
    × ((w'.sockets fd).sent ≡ (w.sockets fd).sent ++ out)
    × (incoming (w'.sockets fd).arrivals ≡ rest)

module _ (codec : Codec) (fd : ℕ) where
  receive_answer-incoming :
      (w : World) (n : ℕ) (s : Socket)
      → IsAmple w.memory
      → w.sockets fd ≡ s
      → n ≤ length (incoming s.arrivals)
      → (w' : World) × (receive_answer codec fd n w
          ≡ done (codec.unpack (take n (incoming s.arrivals))) w')
        × ((w'.sockets fd).sent ≡ s.sent)
        × (incoming (w'.sockets fd).arrivals ≡ drop n (incoming s.arrivals))
  unfolding receive_answer
  receive_answer-incoming w n s ample here enough =
      let w₁ : World = record w { memory = spend 1 0 w.memory } in
      let (as_, read, left) = read_fd-incoming fd n w₁ s here enough in
      let s₂ : Socket = record s { arrivals = as_ } in
      let g = update w.sockets fd s₂ in
      let self = update_self w.sockets fd s₂ in
      (
        record w { memory = spend 1 1 w.memory; sockets = g },
        ground (arith, malloc-IsAmple n ample, read, free-spend (spend 1 0 w.memory)),
        ap (λ x. x.sent) self,
        ap (λ x. incoming x.arrivals) self ∙ left,
      )

  read_answer-frame :
      (w : World) (answer : MessageT) (rest : Bytes) (s : Socket)
      → IsAmple w.memory
      → w.sockets fd ≡ s
      → incoming s.arrivals ≡ frame codec answer ++ rest
      → length (codec.pack answer) < 2 ^ 16
      → (w' : World) × (read_answer codec fd w ≡ done (codec.unpack (codec.pack answer)) w')
        × ((w'.sockets fd).sent ≡ s.sent)
        × (incoming (w'.sockets fd).arrivals ≡ rest)
  unfolding read_answer htons
  read_answer-frame w answer rest s ample here h short =
      let p = codec.pack answer in
      let n : ℕ = length p in
      let sized = length-append p rest in
      let wide = ap length h in
      let (as_, read, left) = read_fd-incoming fd 2 w s here (rw h (omega arith)) in
      let s₁ : Socket = record s { arrivals = as_ } in
      let w₁ : World = record w { sockets = update w.sockets fd s₁ } in
      let body : incoming as_ ≡ p ++ rest = left ∙ ap (drop 2) h in
      let header : take 2 (incoming s.arrivals) ≡ htons n ++ [] = ap (take 2) h in
      let modulo : n % 2 ^ 16 ≡ n = omega arith in
      let size : ntohs (take 2 (incoming s.arrivals)) ≡ n =
        ap ntohs header ∙ (ntohs-htons n [] ∙ modulo) in
      let got : take n (incoming as_) ≡ p =
        ap (take n) body ∙ (take-append_le n p rest (omega arith) ∙ take-length p) in
      let all_here = ap length body in
      let (w', run, kept, after) =
        receive_answer-incoming w₁ n s₁ ample (update_self w.sockets fd s₁) (omega arith) in
      (
        w',
        ground (arith, read, size, run, ap codec.unpack got),
        kept,
        after ∙ (ap (drop n) body ∙ drop-length p rest),
      )

  -- network_send_receive writes the frame of the message and returns the message whose frame comes
  -- back, in whatever pieces, leaving what follows it, when every request for memory is granted,
  -- the connection takes the frame, and the answer packs into less than 2^16 bytes that the codec
  -- unpacks again.
  pub network_send_receive-answer :
      (msg answer : MessageT) (rest : Bytes) (w : World)
      → IsAmple w.memory
      → length (codec.pack msg) + 2 ≤ patience (w.sockets fd).progress
      → incoming (w.sockets fd).arrivals ≡ frame codec answer ++ rest
      → length (codec.pack answer) < 2 ^ 16
      → codec.unpack (codec.pack answer) ≡ some answer
      → Exchanges (some answer) fd (frame codec msg) rest w (network_send_receive codec fd msg w)
  unfolding network_send_receive htons
  network_send_receive-answer msg answer rest w ample h there short lawful =
      let buffer = codec.pack msg in
      let header = htons (length buffer) in
      let s = w.sockets fd in
      let w₁ : World = record w { memory = spend 1 0 w.memory } in
      let (ps, first, left) = write_fd-sent fd header w₁ s refl (omega arith) in
      let s₂ : Socket = record s { progress = ps; sent = s.sent ++ header } in
      let f₂ = update w.sockets fd s₂ in
      let w₂ : World = record w₁ { sockets = f₂ } in
      let here = update_self w.sockets fd s₂ in
      let (qs, second, _) = write_fd-sent fd buffer w₂ s₂ here (omega arith) in
      let s₃ : Socket = record s₂ { progress = qs; sent = s₂.sent ++ buffer } in
      let f₃ = update f₂ fd s₃ in
      let w₃ : World = record w₂ { memory = spend 1 1 w.memory; sockets = f₃ } in
      let (w', run, kept, after) =
        read_answer-frame w₃ answer rest s₃ (IsAmple-spend 1 1 ample) (update_self f₂ fd s₃) there
          short in
      (
        w',
        ground (
          arith,
          malloc-IsAmple (length buffer) ample,
          first,
          second,
          free-spend (spend 1 0 w.memory),
          run,
          lawful,
        ),
        kept ∙ simp list_laws,
        after,
      )
