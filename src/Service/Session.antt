-- ===== src/Service/Session.antt =====
-- A client that sends one message after the other to the last server of the chain.
use amazon_dynamo_db.Prelude.{
  list_laws, ℕ, ◌+◌, ◌^◌, ◌≤◌, ◌<◌, ◌≡◌, refl, ap, sym, subst, ◌∙◌, ℤ, Option, some, none, List, [],
  ◌∷◌, ◌++◌, length, arith,
}
use amazon_dynamo_db.Memory.{Memory}
use amazon_dynamo_db.Memory.Spend.{IsAmple, IsAmple-spend, spend}
use amazon_dynamo_db.Strings.{Bytes}
use amazon_dynamo_db.Sockets.Delivery.{incoming, patience}
use amazon_dynamo_db.Table.{Table}
use amazon_dynamo_db.Messages.{MessageT, StatisticsT}
use amazon_dynamo_db.Skeleton.Stats.Laws.{add_time}
use amazon_dynamo_db.Network.{Codec, World}
use amazon_dynamo_db.Network.Frames.{frame}
use amazon_dynamo_db.Service.{Round, ServerState, serve_all, continue_with}
use amazon_dynamo_db.Service.Rounds.{Answers, Fits, counted, serve-reply}

-- A message, its reply, the time that it takes, and the table and the memory after `invoke`.
pub record Exchange : Type 0 where
  pub msg : MessageT
  pub reply : MessageT
  pub elapsed : ℤ
  pub table : Option Table
  pub memory : Memory

abbrev pub rounds : List Exchange → List Round
rounds [] = []
rounds (e ∷ es) = record { next_sockfd = none; elapsed = e.elapsed } ∷ rounds es

module _ (codec : Codec) where
  -- The frames of the messages, and of the replies.
  abbrev pub questions : List Exchange → Bytes
  questions [] = []
  questions (e ∷ es) = frame codec e.msg ++ questions es

  abbrev pub answers : List Exchange → Bytes
  answers [] = []
  answers (e ∷ es) = frame codec e.reply ++ answers es

  abbrev pub answers_size : List Exchange → ℕ
  answers_size [] = 0
  answers_size (e ∷ es) = (length (codec.pack e.reply) + 2) + answers_size es

  -- Each message fits its frame and is unpacked again, `invoke` gives its reply, and the counters stay
  -- in their range.
  abbrev pub Conversation : StatisticsT → Option Table → Memory → List Exchange → Type 0
  Conversation stats table m [] = Unit {0}
  Conversation stats table m (e ∷ es) =
      ((0 < length (codec.pack e.msg)) × (length (codec.pack e.msg) < 2 ^ 16))
      × (codec.unpack (codec.pack e.msg) ≡ some e.msg)
      × Answers stats table e.msg (spend 1 1 m) e.reply e.table e.memory
      × IsAmple e.memory
      × Fits stats e.elapsed
      × Conversation (counted e.reply (add_time e.elapsed stats)) e.table (spend 1 1 e.memory) es

-- The state after all of them.
abbrev pub state_after : StatisticsT → Option Table → List Exchange → ServerState
state_after stats table [] = record { stats = stats; table = table }
state_after stats table (e ∷ es) =
    state_after (counted e.reply (add_time e.elapsed stats)) e.table es

module _ (codec : Codec) (fd : ℕ) where
  -- On the last server of the chain the loop of clientThread answers any sequence of framed
  -- messages in order by the frames of the replies that invoke gives, each on the table that the
  -- one before has left, counts the operations and their times, and goes on with what follows on
  -- the connection, when every request for memory is granted, each message packs into at least one
  -- and less than 2^16 bytes that the codec unpacks again, the connection takes the replies, and at
  -- each message one more operation and the elapsed time, which can be negative, leave neither
  -- counter outside the range of an int.
  pub serve_all-answers :
      (es : List Exchange) (stats : StatisticsT) (table : Option Table) (w : World) (m : Memory)
      (rest : Bytes) (more : List Round)
      → w.memory ≡ m
      → IsAmple m
      → incoming (w.sockets fd).arrivals ≡ questions codec es ++ rest
      → answers_size codec es ≤ patience (w.sockets fd).progress
      → Conversation codec stats table m es
      → (w' : World) × (serve_all codec fd
            (rounds es ++ more)
            (record { stats = stats; table = table })
            w
          ≡ serve_all codec fd more (state_after stats table es) w')
        × ((w'.sockets fd).sent ≡ (w.sockets fd).sent ++ answers codec es)
        × (incoming (w'.sockets fd).arrivals ≡ rest)
  unfolding serve_all continue_with
  serve_all-answers [] stats table w m rest more here ample there fits c =
      (w, refl, simp list_laws, there)
  serve_all-answers (e ∷ es) stats table w m rest more here ample there fits
        (sized, lawful, replied, ample', room, later) =
      let (w₁, run, sent, left, memory₁, spent) =
        serve-reply codec fd stats e.elapsed room e.msg e.reply (questions codec es ++ rest) table
          e.table w e.memory (subst IsAmple (sym here) ample) (there ∙ simp list_laws) sized lawful
          (subst (λ n. Answers stats table e.msg (spend 1 1 n) e.reply e.table e.memory) (sym here)
            replied)
          ample' (omega arith) in
      let (w₂, runs, sent₂, left₂) =
        serve_all-answers es (counted e.reply (add_time e.elapsed stats)) e.table w₁
          (spend 1 1 e.memory) rest more memory₁ (IsAmple-spend 1 1 ample') left (omega arith)
          later in
      (
        w₂,
        ground (arith, run, runs),
        sent₂ ∙ (ap (λ b. b ++ answers codec es) sent ∙ simp list_laws),
        left₂,
      )
