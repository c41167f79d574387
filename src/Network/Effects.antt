-- ===== src/Network/Effects.antt =====
-- The worlds in which `network_send` and `network_receive` end.
use mathlib.Core.Path.{fun_ext}
use mathlib.Core.List.{append_assoc}
use amazon_dynamo_db.Prelude.{
  ℕ, ◌+◌, ◌%◌, ◌^◌, ◌≤◌, ◌<◌, ◌≡◌, ap, ◌∙◌, ℤ, pos, Option, none, some, List, [], ◌∷◌, ◌++◌, length,
  take, drop, arith, take-length, drop-length, length-append, take-append_le,
}
use amazon_dynamo_db.Memory.Spend.{IsAmple, spend, malloc-IsAmple, free-spend}
use amazon_dynamo_db.Strings.{Bytes}
use amazon_dynamo_db.Sockets.{Socket, Progress, Arrival, hung_up}
use amazon_dynamo_db.Sockets.Delivery.{incoming, patience, read_all-hung_up}
use amazon_dynamo_db.Messages.{MessageT}
use amazon_dynamo_db.Network.{
  Codec, World, Outcome, done, update, htons, ntohs, network_send, finish, network_receive,
  receive_body, read_fd,
}
use amazon_dynamo_db.Network.Frames.{
  frame, update_self, write_fd-sent, read_fd-incoming, ntohs-htons,
}

pub update_twice :
    (f : ℕ → Socket) (fd : ℕ) (s t : Socket) → update (update f fd s) fd t ≡ update f fd t
update_twice f fd s t = fun_ext (λ x. ground arith)

module _ (codec : Codec) (fd : ℕ) (w : World) (s : Socket) (ample : IsAmple w.memory)
    (here : w.sockets fd ≡ s) where
  abbrev pub Sent : MessageT → Outcome ℤ → Type 0
  Sent msg out =
      (ps : List Progress) × (out
        ≡ done (pos 0) (record w {
          memory = spend 1 1 w.memory;
          sockets =
              update w.sockets fd (record s { progress = ps; sent = s.sent ++ frame codec msg });
        }))
      × (patience s.progress ≤ patience ps + (length (codec.pack msg) + 2))

  pub network_send-effect :
      (msg : MessageT)
      → length (codec.pack msg) + 2 ≤ patience s.progress
      → Sent msg (network_send codec fd msg w)
  unfolding network_send finish htons
  network_send-effect msg h =
      let buffer = codec.pack msg in
      let header = htons (length buffer) in
      let w₁ : World = record w { memory = spend 1 0 w.memory } in
      let (ps, first, left) = write_fd-sent fd header w₁ s here (omega arith) in
      let s₂ : Socket = record s { progress = ps; sent = s.sent ++ header } in
      let f₂ = update w.sockets fd s₂ in
      let w₂ : World = record w₁ { sockets = f₂ } in
      let (qs, second, left₂) =
        write_fd-sent fd buffer w₂ s₂ (update_self w.sockets fd s₂) (omega arith) in
      let out : Bytes = (s.sent ++ header) ++ buffer in
      let s₃ : Bytes → Socket = λ b. record s { progress = qs; sent = b } in
      let ending : (ℕ → Socket) → Outcome ℤ =
        λ f. done (pos 0) (record w { memory = spend 1 1 w.memory; sockets = f }) in
      (
        qs,
        ground (
          arith,
          malloc-IsAmple (length buffer) ample,
          first,
          second,
          free-spend (spend 1 0 w.memory),
        )
            ∙ (ap ending (update_twice w.sockets fd s₂ (s₃ out))
                ∙ ap (λ b. ending (update w.sockets fd (s₃ b)))
                    (append_assoc s.sent header buffer)),
        omega arith,
      )

  abbrev pub Received : MessageT → Bytes → Outcome (Option MessageT) → Type 0
  Received msg rest out =
      (as_ : List Arrival) × (out
        ≡ done (some msg) (record w {
          memory = spend 1 1 w.memory;
          sockets = update w.sockets fd (record s { arrivals = as_ });
        }))
      × (incoming as_ ≡ rest)

  pub network_receive-effect :
      (msg : MessageT) (rest : Bytes)
      → incoming s.arrivals ≡ frame codec msg ++ rest
      → (0 < length (codec.pack msg)) × (length (codec.pack msg) < 2 ^ 16)
      → codec.unpack (codec.pack msg) ≡ some msg
      → Received msg rest (network_receive codec fd w)
  unfolding network_receive receive_body htons
  network_receive-effect msg rest h sized lawful =
      let p = codec.pack msg in
      let n : ℕ = length p in
      let whole = length-append p rest in
      let wide = ap length h in
      let (as_, read, left) = read_fd-incoming fd 2 w s here (rw h (omega arith)) in
      let s₁ : Socket = record s { arrivals = as_ } in
      let f₁ = update w.sockets fd s₁ in
      let w₁ : World = record w { memory = spend 1 0 w.memory; sockets = f₁ } in
      let body : incoming as_ ≡ p ++ rest = left ∙ ap (drop 2) h in
      let header : take 2 (incoming s.arrivals) ≡ htons n ++ [] = ap (take 2) h in
      let modulo : n % 2 ^ 16 ≡ n = omega arith in
      let size : ntohs (take 2 (incoming s.arrivals)) ≡ n =
        ap ntohs header ∙ (ntohs-htons n [] ∙ modulo) in
      let got : take n (incoming as_) ≡ p =
        ap (take n) body ∙ (take-append_le n p rest (omega arith) ∙ take-length p) in
      let all_here = ap length body in
      let (bs, read₂, left₂) =
        read_fd-incoming fd n w₁ s₁ (update_self w.sockets fd s₁) (omega arith) in
      let s₂ : Socket = record s { arrivals = bs } in
      let ending : (ℕ → Socket) → Outcome (Option MessageT) =
        λ f. done (some msg) (record w { memory = spend 1 1 w.memory; sockets = f }) in
      (
        bs,
        ground (
          arith,
          read,
          size,
          malloc-IsAmple n ample,
          read₂,
          free-spend (spend 1 0 w.memory),
          ap codec.unpack got ∙ lawful,
        )
            ∙ ap ending (update_twice w.sockets fd s₁ s₂),
        left₂ ∙ (ap (drop n) body ∙ drop-length p rest),
      )

pub network_receive-hung_up :
    (codec : Codec) (fd : ℕ) (w : World) (as_ : List Arrival)
    → (w.sockets fd).arrivals ≡ hung_up ∷ as_
    → network_receive codec fd w
      ≡ done none (record w {
        sockets = update w.sockets fd (record (w.sockets fd) { arrivals = hung_up ∷ as_ });
      })
unfolding network_receive read_fd
network_receive-hung_up codec fd w as_ h = ground (arith, read_all-hung_up (w.sockets fd) 1 as_ h)
