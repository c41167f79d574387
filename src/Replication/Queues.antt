-- ===== src/Replication/Queues.antt =====
-- What is on its way to a server of the chain.
use mathlib.Core.List.{append-nil}
use native.Mathlib.Decide.{ℕ_discrete, dec_lt}
use amazon_dynamo_db.Prelude.{
  list_laws, ℕ, zero, suc, ◌≤◌, ◌<◌, ◌≡◌, ◌≢◌, refl, ap, ◌∙◌, Option, none, some, List, [], ◌∷◌,
  ◌++◌, arith,
}
use amazon_dynamo_db.Messages.{MessageT}
use amazon_dynamo_db.Threads.Family.{update}
use amazon_dynamo_db.Replication.{Chain, forwarded}

-- All that the first server has passed on and server `i` has not received, the oldest first.
unfoldable pub queue : (ℕ → List MessageT) → ℕ → List MessageT
queue inbox zero = []
queue inbox (suc i) = inbox (suc i) ++ queue inbox i

abbrev pub held : Option MessageT → List MessageT
held none = []
held (some msg) = msg ∷ []

pub forwarded-next :
    (last i : ℕ) (msg : MessageT) (inbox : ℕ → List MessageT)
    → i < last
    → forwarded last i msg inbox (suc i) ≡ inbox (suc i) ++ msg ∷ []
unfolding forwarded
forwarded-next last i msg inbox h = ground arith

pub forwarded-other :
    (last i : ℕ) (msg : MessageT) (inbox : ℕ → List MessageT) (k : ℕ)
    → k ≢ suc i
    → forwarded last i msg inbox k ≡ inbox k
unfolding forwarded
forwarded-other last i msg inbox k h = ground arith

pub queue-empty :
    (inbox : ℕ → List MessageT) (i : ℕ)
    → ((k : ℕ) → 0 < k → k ≤ i → inbox k ≡ [])
    → queue inbox i ≡ []
unfolding queue
queue-empty inbox zero none_sent = refl
queue-empty inbox (suc i) none_sent =
    rw
      (
        none_sent (suc i) (omega arith) (omega arith),
        queue-empty inbox i (λ k h place. none_sent k h (omega (arith, place))),
      )
      refl

-- What the first server passes on comes last.
pub queue-enter :
    (last : ℕ) (msg : MessageT) (inbox : ℕ → List MessageT) (i : ℕ)
    → suc i ≤ last
    → queue (forwarded last 0 msg inbox) (suc i) ≡ queue inbox (suc i) ++ msg ∷ []
unfolding queue
queue-enter last msg inbox zero h =
    rw (append-nil (forwarded last 0 msg inbox 1), append-nil (inbox 1))
      (forwarded-next last 0 msg inbox (omega arith))
queue-enter last msg inbox (suc i) h =
    let fwd = forwarded last 0 msg inbox in
    ap (λ x. x ++ queue fwd (suc i)) (forwarded-other last 0 msg inbox (suc (suc i)) (omega arith))
    ∙ (ap (λ x. inbox (suc (suc i)) ++ x) (queue-enter last msg inbox i (omega arith))
        ∙ simp list_laws)

module _ (last : ℕ) (msg : MessageT) (rest : List MessageT) (inbox : ℕ → List MessageT)
    (j : ℕ) where
  abbrev pub relayed : ℕ → List MessageT
  relayed = forwarded last j msg (update inbox j rest)

  pub relayed-other : (k : ℕ) → k ≢ j → k ≢ suc j → relayed k ≡ inbox k
  relayed-other k h h' = forwarded-other last j msg (update inbox j rest) k h' ∙ ground (arith, h)

  -- A server below has nothing to do with it.
  pub queue-below : (i : ℕ) → i < j → queue relayed i ≡ queue inbox i
  unfolding queue
  queue-below zero h = refl
  queue-below (suc i) h =
      rw (queue-below i (omega arith), relayed-other (suc i) (omega arith) (omega arith)) refl

  -- The server itself has received the first message.
  pub queue-at :
      (i : ℕ) → i ≡ j → 0 < i → inbox j ≡ msg ∷ rest → msg ∷ queue relayed i ≡ queue inbox i
  unfolding queue
  queue-at zero e h first = absurd (omega arith)
  queue-at (suc i) e h first =
      let here : relayed (suc i) ≡ rest =
        forwarded-other last j msg (update inbox j rest) (suc i) (omega arith)
        ∙ ground (arith, e) in
      let there : inbox (suc i) ≡ msg ∷ rest = ap inbox e ∙ first in
      rw (queue-below i (omega arith), here, there) refl

  -- For the servers above it is still on its way.
  pub queue-above :
      (i : ℕ)
      → (0 < j) × (j < i)
      → i ≤ last
      → inbox j ≡ msg ∷ rest
      → queue relayed i ≡ queue inbox i
  unfolding queue
  queue-above zero h k first = absurd (omega arith)
  queue-above (suc i) h k first = elim (ℕ_discrete i j) [
    | yes next ↦
        let sent : relayed (suc i) ≡ inbox (suc i) ++ msg ∷ [] =
          ap relayed (ap suc next)
          ∙ (forwarded-next last j msg (update inbox j rest) (omega arith)
              ∙ ground (arith, next)) in
        rw (sent, ← queue-at i next (omega arith) first) (simp list_laws)
    | no beyond ↦
        rw
          (
            queue-above i (h.0, omega arith) (omega arith) first,
            relayed-other (suc i) (omega arith) (omega arith),
          )
          refl
  ]

-- What server `i` has received and not handled, or not received.
abbrev pub pending : Chain → ℕ → List MessageT
pending s i = held (s.link i) ++ queue s.inbox i

-- A message that is received from the server before is still pending.
pub pending-relay :
    (last : ℕ) (s : Chain) (i j : ℕ) (msg : MessageT) (rest : List MessageT)
    → (0 < i) × (i ≤ last)
    → 0 < j
    → s.link j ≡ none
    → s.inbox j ≡ msg ∷ rest
    → pending s i
      ≡ pending
          (record s { link = update s.link j (some msg); inbox = relayed last msg rest s.inbox j })
          i
pending-relay last s i j msg rest place above free first = elim (ℕ_discrete i j) [
  | yes here ↦
      rw (← queue-at last msg rest s.inbox j i here place.0 first) (ground (arith, here, free))
  | no other ↦ elim (dec_lt i j) [
    | yes below ↦ rw (queue-below last msg rest s.inbox j i below) (ground arith)
    | no beyond ↦
        rw (queue-above last msg rest s.inbox j i (above, omega arith) place.1 first) (ground arith)
  ]
]
