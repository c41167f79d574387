-- ===== src/Service/Rounds.antt =====
-- One message of a client, from its frame to the frame of the reply.
use amazon_dynamo_db.Prelude.{
  ℕ, ◌+◌, ◌^◌, ◌≤◌, ◌<◌, ◌≡◌, ◌≢◌, refl, ap, sym, subst, ◌∙◌, ℤ, pos, ◌==◌, ◌||◌, Option, none,
  some, if◌then◌else◌, List, ◌++◌, length, arith, fits_int, ◌+ℤ◌, true, Bool-cases, inl, inr,
}
use amazon_dynamo_db.Memory.{ok, Memory}
use amazon_dynamo_db.Memory.Spend.{IsAmple, IsAmple-spend, spend}
use amazon_dynamo_db.Strings.{Bytes}
use amazon_dynamo_db.Sockets.{Socket, Progress}
use amazon_dynamo_db.Sockets.Delivery.{incoming, patience}
use amazon_dynamo_db.Table.{Table}
use amazon_dynamo_db.Messages.{MessageT, StatisticsT}
use amazon_dynamo_db.Messages.Opcode
use amazon_dynamo_db.Skeleton.{invoke}
use amazon_dynamo_db.Skeleton.Stats.Laws.{
  add_ops, add_time, increment_total_ops-add_ops, increment_time-add_time,
}
use amazon_dynamo_db.Network.{Codec, World, Outcome, done, update}
use amazon_dynamo_db.Network.Frames.{frame, update_self}
use amazon_dynamo_db.Network.Effects.{network_send-effect, network_receive-effect}
use amazon_dynamo_db.Service.{
  ServerState, Step, stays, forward, count_operation, reply_to, answer_message, take_message, serve,
}

-- Statistics and errors are not counted.
abbrev pub counted : MessageT → StatisticsT → StatisticsT
counted reply stats =
    if (reply.opcode == Opcode.stats + 1) || (reply.opcode == Opcode.error)
    then stats
    else add_ops (pos 1) stats

count_operation-counted :
    (reply : MessageT) (stats : StatisticsT) (m : Memory)
    → fits_int (stats.total_ops +ℤ pos 1) ≡ true
    → count_operation reply stats m ≡ ok (counted reply stats, m)
unfolding count_operation
count_operation-counted reply stats m room =
    elim (Bool-cases ((reply.opcode == Opcode.stats + 1) || (reply.opcode == Opcode.error))) [
      | inl other ↦ rw other refl
      | inr counts_ ↦ rw counts_ (increment_total_ops-add_ops stats m room)
    ]

-- The server answers `msg` by `reply`, in memory `m`, and its table is then `after`.
abbrev pub Answers :
    StatisticsT → Option Table → MessageT → Memory → MessageT → Option Table → Memory → Type 0
Answers stats table msg m reply after m' =
    (code : ℤ) × (invoke stats (some msg) table m ≡ ok ((code, some reply, after), m'))

-- One more operation and the time that it takes leave no counter outside the range of an `int`.
abbrev pub Fits : StatisticsT → ℤ → Type 0
Fits stats elapsed =
    (fits_int (stats.total_ops +ℤ pos 1) ≡ true)
    × (fits_int (stats.total_op_time +ℤ elapsed) ≡ true)

module _ (codec : Codec) (fd : ℕ) (stats : StatisticsT) (elapsed : ℤ)
    (room : Fits stats elapsed) where
  -- The state after a message has been answered.
  abbrev pub served : MessageT → Option Table → ServerState
  served reply table = record { stats = counted reply (add_time elapsed stats); table = table }

  abbrev Replied : MessageT → Option Table → World → Socket → Outcome Step → Type 0
  Replied reply table w s out =
      (ps : List Progress) × (out
        ≡ done (stays (served reply table)) (record w {
          memory = spend 1 1 w.memory;
          sockets =
              update w.sockets fd (record s { progress = ps; sent = s.sent ++ frame codec reply });
        }))
      × (patience s.progress ≤ patience ps + (length (codec.pack reply) + 2))

  reply_to-frame :
      (reply : MessageT) (table : Option Table) (w : World) (s : Socket)
      → IsAmple w.memory
      → w.sockets fd ≡ s
      → length (codec.pack reply) + 2 ≤ patience s.progress
      → Replied reply table w s (
          reply_to codec fd
            (some reply)
            (record { stats = add_time elapsed stats; table = table })
            w)
  unfolding reply_to
  reply_to-frame reply table w s ample here fits =
      let (ps, run, left) = network_send-effect codec fd w s ample here reply fits in
      let done_ =
        count_operation-counted reply (add_time elapsed stats) (spend 1 1 w.memory) room.0 in
      (ps, ground (arith, run, done_), left)

  answer_message-frame :
      (msg reply : MessageT) (table after : Option Table) (w : World) (s : Socket) (m' : Memory)
      → Answers stats table msg w.memory reply after m'
      → IsAmple m'
      → w.sockets fd ≡ s
      → length (codec.pack reply) + 2 ≤ patience s.progress
      → Replied reply after
          (record w { memory = m' })
          s
          (answer_message codec fd
            (record { next_sockfd = none; elapsed = elapsed })
            msg
            (record { stats = stats; table = table })
            w)
  unfolding answer_message forward
  answer_message-frame msg reply table after w s m' (code, answers) ample here fits =
      let w₁ : World = record w { memory = m' } in
      let (ps, run, left) = reply_to-frame reply after w₁ s ample here fits in
      (ps, ground (arith, answers, increment_time-add_time elapsed stats m' room.1, run), left)

  -- A round of the last server: the frame of the reply goes back, and the operation is counted.
  pub serve-reply :
      (msg reply : MessageT) (rest : Bytes) (table after : Option Table) (w : World) (m' : Memory)
      → IsAmple w.memory
      → incoming (w.sockets fd).arrivals ≡ frame codec msg ++ rest
      → (0 < length (codec.pack msg)) × (length (codec.pack msg) < 2 ^ 16)
      → codec.unpack (codec.pack msg) ≡ some msg
      → Answers stats table msg (spend 1 1 w.memory) reply after m'
      → IsAmple m'
      → length (codec.pack reply) + 2 ≤ patience (w.sockets fd).progress
      → (w' : World) × (serve codec fd
            (record { next_sockfd = none; elapsed = elapsed })
            (record { stats = stats; table = table })
            w
          ≡ done (stays (served reply after)) w')
        × ((w'.sockets fd).sent ≡ (w.sockets fd).sent ++ frame codec reply)
        × (incoming (w'.sockets fd).arrivals ≡ rest)
        × (w'.memory ≡ spend 1 1 m')
        × (patience (w.sockets fd).progress
            ≤ patience (w'.sockets fd).progress + (length (codec.pack reply) + 2))
  unfolding serve take_message
  serve-reply msg reply rest table after w m' ample there sized lawful answers ample' fits =
      let s = w.sockets fd in
      let (as_, got, left) =
        network_receive-effect codec fd w s ample refl msg rest there sized lawful in
      let s₁ : Socket = record s { arrivals = as_ } in
      let f₁ = update w.sockets fd s₁ in
      let w₁ : World = record w { memory = spend 1 1 w.memory; sockets = f₁ } in
      let (ps, run, spent) =
        answer_message-frame msg reply table after w₁ s₁ m' answers ample'
          (update_self w.sockets fd s₁) fits in
      let s₂ : Socket = record s₁ { progress = ps; sent = s.sent ++ frame codec reply } in
      let self = update_self f₁ fd s₂ in
      (
        record w { memory = spend 1 1 m'; sockets = update f₁ fd s₂ },
        ground (arith, got, run),
        ap (λ x. x.sent) self,
        ap (λ x. incoming x.arrivals) self ∙ left,
        refl,
        subst (λ x. patience s.progress ≤ patience x.progress + (length (codec.pack reply) + 2))
            (sym self) spent,
      )

  update_other : (f : ℕ → Socket) (j : ℕ) (s : Socket) → fd ≢ j → update f fd s j ≡ f j
  update_other f j s apart = ground (arith, apart)

  -- Where there is a next server, a round of clientThread reads the framed message of its client,
  -- writes the same frame to the next server, answers the client by the frame of the reply of
  -- invoke, counts the operation and its time, leaves what follows on the connection, and reads
  -- nothing from the next server, when every request for memory is granted and the codec unpacks
  -- the message, which packs into at least one and less than 2^16 bytes, both connections take
  -- their frames, the connections are different, invoke replies, and one more operation and the
  -- elapsed time, which can be negative, leave neither counter outside the range of an int.
  pub serve-forward :
      (msg reply : MessageT) (rest : Bytes) (table after : Option Table) (w : World) (m' : Memory)
      (next : ℕ)
      → fd ≢ next
      → IsAmple w.memory
      → incoming (w.sockets fd).arrivals ≡ frame codec msg ++ rest
      → (0 < length (codec.pack msg)) × (length (codec.pack msg) < 2 ^ 16)
      → codec.unpack (codec.pack msg) ≡ some msg
      → length (codec.pack msg) + 2 ≤ patience (w.sockets next).progress
      → Answers stats table msg (spend 1 1 (spend 1 1 w.memory)) reply after m'
      → IsAmple m'
      → length (codec.pack reply) + 2 ≤ patience (w.sockets fd).progress
      → (w' : World) × (serve codec fd
            (record { next_sockfd = some next; elapsed = elapsed })
            (record { stats = stats; table = table })
            w
          ≡ done (stays (served reply after)) w')
        × ((w'.sockets next).sent ≡ (w.sockets next).sent ++ frame codec msg)
        × ((w'.sockets fd).sent ≡ (w.sockets fd).sent ++ frame codec reply)
        × (incoming (w'.sockets fd).arrivals ≡ rest)
        × ((w'.sockets next).arrivals ≡ (w.sockets next).arrivals)
  unfolding serve take_message answer_message forward
  serve-forward msg reply rest table after w m' next apart ample there sized lawful relayed
        (code, answers) ample' fits =
      let s = w.sockets fd in
      let (as_, got, left) =
        network_receive-effect codec fd w s ample refl msg rest there sized lawful in
      let s₁ : Socket = record s { arrivals = as_ } in
      let f₁ = update w.sockets fd s₁ in
      let w₁ : World = record w { memory = spend 1 1 w.memory; sockets = f₁ } in
      let n = w.sockets next in
      let (qs, sent, _) =
        network_send-effect codec next w₁ n (IsAmple-spend 1 1 ample)
          (update_other w.sockets next s₁ apart) msg relayed in
      let n₁ : Socket = record n { progress = qs; sent = n.sent ++ frame codec msg } in
      let f₂ = update f₁ next n₁ in
      let w₂ : World = record w { memory = m'; sockets = f₂ } in
      let mine : f₂ fd ≡ s₁ = ground (arith, apart) in
      let (ps, run, _) = reply_to-frame reply after w₂ s₁ ample' mine fits in
      let s₂ : Socket = record s₁ { progress = ps; sent = s.sent ++ frame codec reply } in
      let self = update_self f₂ fd s₂ in
      let timed = increment_time-add_time elapsed stats m' room.1 in
      (
        record w { memory = spend 1 1 m'; sockets = update f₂ fd s₂ },
        ground (arith, got, sent, answers, timed, run),
        ap (λ x. x.sent) (update_other f₂ next s₂ apart)
            ∙ ap (λ x. x.sent) (update_self f₁ next n₁),
        ap (λ x. x.sent) self,
        ap (λ x. incoming x.arrivals) self ∙ left,
        ap (λ x. x.arrivals) (update_other f₂ next s₂ apart)
            ∙ ap (λ x. x.arrivals) (update_self f₁ next n₁),
      )
