-- ===== src/Replication/Prefixes.antt =====
-- Every server of the chain has handled a first part of what the clients sent, in their order.
use mathlib.Core.List.{append-nil}
use native.Mathlib.Decide.{ℕ_discrete}
use amazon_dynamo_db.Prelude.{
  list_laws, ℕ, suc, ◌≤◌, ◌<◌, ◌≡◌, refl, ap, sym, ◌∙◌, subst, Option, none, some, List, [], ◌∷◌,
  ◌++◌, All, length, length-append, arith,
}
use amazon_dynamo_db.Messages.{MessageT}
use amazon_dynamo_db.Threads.Family.{update, update-same, update-other}
use amazon_dynamo_db.Stub.Server.{Server}
use amazon_dynamo_db.Replication.{
  Chain, after_message, forwarded, Reach, begin, receive, answer, relay, repeat,
}
use amazon_dynamo_db.Replication.Queues.{
  queue, held, queue-empty, queue-enter, pending, pending-relay,
}

module _ {ℓ} {V : Type ℓ} (effect : MessageT → V → V) where
  -- The messages one after another.
  pub play : List MessageT → V → V
  play [] v = v
  play (msg ∷ log) v = play log (effect msg v)

  play-append :
      (xs : List MessageT) (msg : MessageT) (v : V)
      → play (xs ++ msg ∷ []) v ≡ effect msg (play xs v)
  unfolding play
  play-append [] msg v = refl
  play-append (x ∷ xs) msg v = play-append xs msg (effect x v)

-- A server that has handled all of the log but what is pending, and stands for what that makes of the
-- value at first; what a server stands for may depend on how many messages it has handled.
pub record Behind {ℓ} {V : Type ℓ} (effect : MessageT → V → V) (Stands : ℕ → Server → V → Type 0)
    (v : V) (pending : List MessageT) (srv : Server) (log : List MessageT) : Type 0 where
  pub done : List MessageT
  pub order : log ≡ done ++ pending
  pub stands : Stands (length done) srv (play effect done v)

module _ (P : MessageT → Type 0) where
  All-first : (xs ys : List MessageT) → All P (xs ++ ys) → All P xs
  All-first [] ys h = tt
  All-first (x ∷ xs) ys h = (h.0, All-first xs ys h.1)

  All-middle : (xs : List MessageT) (x : MessageT) (ys : List MessageT) → All P (xs ++ x ∷ ys) → P x
  All-middle [] x ys h = h.0
  All-middle (y ∷ xs) x ys h = All-middle xs x ys h.1

length-first :
    (xs : List MessageT) (x : MessageT) (ys : List MessageT) → length xs < length (xs ++ x ∷ ys)
length-first [] x ys = omega arith
length-first (y ∷ xs) x ys = omega (arith, length-first xs x ys)

module _ {ℓ} {V : Type ℓ} (effect : MessageT → V → V) (Stands : ℕ → Server → V → Type 0)
    (Allowed : MessageT → Type 0) (bound : ℕ)
    (simulates : (k : ℕ) (srv : Server) (v : V) (msg : MessageT)
      → Allowed msg
      → k < bound
      → Stands k srv v
      → Stands (suc k) (after_message msg srv) (effect msg v))
    (v : V) where
  Behind-sent :
      (waiting log : List MessageT) (srv : Server) (msg : MessageT)
      → Behind effect Stands v waiting srv log
      → Behind effect Stands v (waiting ++ msg ∷ []) srv (log ++ msg ∷ [])
  Behind-sent waiting log srv msg b = record {
    done = b.done;
    order = ap (λ x. x ++ msg ∷ []) b.order ∙ simp list_laws;
    stands = b.stands;
  }

  Behind-handled :
      (waiting log : List MessageT) (srv : Server) (msg : MessageT)
      → All Allowed log
      → length log ≤ bound
      → Behind effect Stands v (msg ∷ waiting) srv log
      → Behind effect Stands v waiting (after_message msg srv) log
  Behind-handled waiting log srv msg allowed room b =
      let more : length b.done < length log =
        subst (λ x. length b.done < length x) (sym b.order) (length-first b.done msg waiting) in
      let next =
        simulates (length b.done) srv (play effect b.done v) msg
          (All-middle Allowed b.done msg waiting (subst (All Allowed) b.order allowed))
          (omega (arith, more)) b.stands in
      record {
        done = b.done ++ msg ∷ [];
        order = b.order ∙ simp list_laws;
        stands =
            rw (play-append effect b.done msg v, length-append b.done (msg ∷ []))
              (subst (λ k. Stands k (after_message msg srv) (effect msg (play effect b.done v)))
                (omega arith) next);
      }

  Behind-repeated :
      (threads : ℕ → Option MessageT) (server : ℕ → Server) (waiting log : List MessageT) (k : ℕ)
      (msg : MessageT)
      → threads k ≡ some msg
      → All Allowed log
      → length log ≤ bound
      → Behind effect Stands v (held (threads k) ++ waiting) (server k) log
      → Behind effect Stands v
          (held (update threads k none k) ++ waiting)
          (update server k (after_message msg (server k)) k)
          log
  Behind-repeated threads server waiting log k msg there allowed room b =
      let first = subst (λ x. Behind effect Stands v (held x ++ waiting) (server k) log) there b in
      rw (update-same threads k none, update-same server k (after_message msg (server k)))
        (Behind-handled waiting log (server k) msg allowed room first)

  module _ {last : ℕ} {servers : ℕ → Server} where
    -- Each server but the first has handled a first part of the log, and the rest is pending.
    pub followers-prefix :
        {n : ℕ} (s : Chain) (log : List MessageT)
        → Reach last n servers s log
        → (i : ℕ) → suc i ≤ last
        → Stands 0 (servers (suc i)) v
        → All Allowed log
        → length log ≤ bound
        → Behind effect Stands v (pending s (suc i)) (s.server (suc i)) log
    unfolding play
    followers-prefix s log begin i place stands allowed room = record {
      done = [];
      order = sym (queue-empty (λ k. []) (suc i) (λ k h below. refl));
      stands = stands;
    }
    followers-prefix s log (receive {s = s'} {log = log'} r c msg h free) i place stands allowed
          room =
        let b =
          followers-prefix s' log' r i place stands (All-first Allowed log' (msg ∷ []) allowed)
            (omega (arith, length-first log' msg [])) in
        let arrived : pending s' (suc i) ++ msg ∷ []
            ≡ held (s'.link (suc i)) ++ queue (forwarded last 0 msg s'.inbox) (suc i) =
          rw (queue-enter last msg s'.inbox i place) (simp list_laws) in
        subst (λ x. Behind effect Stands v x (s'.server (suc i)) (log' ++ msg ∷ [])) arrived
          (Behind-sent (pending s' (suc i)) log' (s'.server (suc i)) msg b)
    followers-prefix s log (answer {s = s'} r c msg h there) i place stands allowed room =
        subst (λ x. Behind effect Stands v (pending s' (suc i)) x log)
          (sym (update-other s'.server 0 (suc i) (after_message msg (s'.server 0)) (omega arith)))
          (followers-prefix s' log r i place stands allowed room)
    followers-prefix s log (relay {s = s'} r j msg rest h free first) i place stands allowed room =
        subst (λ x. Behind effect Stands v x (s'.server (suc i)) log)
          (pending-relay last s' (suc i) j msg rest (omega arith, place) h.0 free first)
          (followers-prefix s' log r i place stands allowed room)
    followers-prefix s log (repeat {s = s'} r j msg h there) i place stands allowed room =
        let b = followers-prefix s' log r i place stands allowed room in
        elim (ℕ_discrete (suc i) j) [
          | yes here ↦
              let now =
                Behind-repeated s'.link s'.server (queue s'.inbox (suc i)) log (suc i) msg
                  (ap s'.link here ∙ there) allowed room b in
              subst
                (λ x.
                  Behind effect Stands v
                    (held (update s'.link x none (suc i)) ++ queue s'.inbox (suc i))
                    (update s'.server x (after_message msg (s'.server x)) (suc i)) log)
                here now
          | no other ↦
              rw
                (
                  update-other s'.server j (suc i) (after_message msg (s'.server j)) other,
                  update-other s'.link j (suc i) none other,
                )
                b
        ]

    -- With one client, the same for the first server.
    pub head-prefix :
        (s : Chain) (log : List MessageT)
        → Reach last 1 servers s log
        → Stands 0 (servers 0) v
        → All Allowed log
        → length log ≤ bound
        → Behind effect Stands v (held (s.clients 0)) (s.server 0) log
    unfolding play
    head-prefix s log begin stands allowed room = record {
      done = [];
      order = refl;
      stands = stands;
    }
    head-prefix s log (receive {s = s'} {log = log'} r c msg h free) stands allowed room =
        let b =
          head-prefix s' log' r stands (All-first Allowed log' (msg ∷ []) allowed)
            (omega (arith, length-first log' msg [])) in
        let only : c ≡ 0 = omega (arith, h) in
        let idle : s'.clients 0 ≡ none = ap s'.clients (sym only) ∙ free in
        let sent =
          Behind-sent [] log' (s'.server 0) msg
            (subst (λ x. Behind effect Stands v (held x) (s'.server 0) log') idle b) in
        subst
          (λ x.
            Behind effect Stands v (held (update s'.clients x (some msg) 0)) (s'.server 0)
              (log' ++ msg ∷ []))
          (sym only) sent
    head-prefix s log (answer {s = s'} r c msg h there) stands allowed room =
        let b = head-prefix s' log r stands allowed room in
        let only : c ≡ 0 = omega (arith, h) in
        let now =
          Behind-repeated s'.clients s'.server [] log 0 msg (ap s'.clients (sym only) ∙ there)
            allowed room (rw (append-nil (held (s'.clients 0))) b) in
        subst
          (λ x.
            Behind effect Stands v (held (update s'.clients x none 0))
              (after_message msg (s'.server 0)) log)
          (sym only) now
    head-prefix s log (relay r j msg rest h free first) stands allowed room =
        head-prefix _ log r stands allowed room
    head-prefix s log (repeat {s = s'} r j msg h there) stands allowed room =
        rw (update-other s'.server j 0 (after_message msg (s'.server j)) (omega arith))
          (head-prefix s' log r stands allowed room)
