-- ===== src/Replication/Progress.antt =====
-- The messages that are on their way in a chain of servers can all be handled.
use native.Mathlib.Decide.{ℕ_discrete}
use amazon_dynamo_db.Prelude.{
  ℕ, zero, suc, ◌≤◌, ◌<◌, ◌≡◌, ◌≢◌, refl, ap, ◌∙◌, Option-cases, inl, inr, none, some, List, [],
  ◌∷◌, arith,
}
use amazon_dynamo_db.Messages.{MessageT}
use amazon_dynamo_db.Threads.Family.{update, update-same, update-other}
use amazon_dynamo_db.Stub.Server.{Server}
use amazon_dynamo_db.Replication.{Chain, Reach, answer, relay, repeat, after_message, forwarded}
use amazon_dynamo_db.Replication.Queues.{forwarded-other, relayed, relayed-other}

-- No message of the first `n` clients or between the servers from 0 to `last` is on its way.
pub record IsQuiet (last n : ℕ) (s : Chain) : Type 0 where
  pub inboxes : (i : ℕ) → 0 < i → i ≤ last → s.inbox i ≡ []
  pub links : (i : ℕ) → 0 < i → i ≤ last → s.link i ≡ none
  pub threads : (c : ℕ) → c < n → s.clients c ≡ none

-- From the first chain to the second, the threads only handle and pass on what they have received or
-- what the server before has sent. No client sends anything.
pub data Drains (last n : ℕ) (s : Chain) : Chain → Type 0 where
  no_more : Drains last n s s
  then_answer :
      {t : Chain}
      → Drains last n s t
      → (c : ℕ) (msg : MessageT) → c < n
      → t.clients c ≡ some msg
      → Drains last n s (record t {
        clients = update t.clients c none;
        server = update t.server 0 (after_message msg (t.server 0));
      })
  then_relay :
      {t : Chain}
      → Drains last n s t
      → (i : ℕ) (msg : MessageT) (rest : List MessageT) → (0 < i) × (i ≤ last)
      → t.link i ≡ none
      → t.inbox i ≡ msg ∷ rest
      → Drains last n s (record t {
        link = update t.link i (some msg);
        inbox = forwarded last i msg (update t.inbox i rest);
      })
  then_repeat :
      {t : Chain}
      → Drains last n s t
      → (i : ℕ) (msg : MessageT) → (0 < i) × (i ≤ last)
      → t.link i ≡ some msg
      → Drains last n s (record t {
        link = update t.link i none;
        server = update t.server i (after_message msg (t.server i));
      })

-- These are steps of the chain, which add no request.
Drains-Reach :
    {last n : ℕ} {servers : ℕ → Server} {s t : Chain} {log : List MessageT}
    → Reach last n servers s log
    → Drains last n s t
    → Reach last n servers t log
Drains-Reach r no_more = r
Drains-Reach r (then_answer d c msg h there) = answer (Drains-Reach r d) c msg h there
Drains-Reach r (then_relay d i msg rest place free first) =
    relay (Drains-Reach r d) i msg rest place free first
Drains-Reach r (then_repeat d i msg place there) = repeat (Drains-Reach r d) i msg place there

module _ (last n : ℕ) (base : Chain) where
  -- Server `i` has nothing left to do, and nothing else changed for the servers below and the clients.
  record Emptied (s : Chain) (i : ℕ) : Type 0 where
    later : Chain
    run : Drains last n base later
    no_inbox : later.inbox i ≡ []
    no_link : later.link i ≡ none
    links : (k : ℕ) → k ≢ i → later.link k ≡ s.link k
    inboxes : (k : ℕ) → k < i → later.inbox k ≡ s.inbox k
    clients : later.clients ≡ s.clients

  inbox-Emptied :
      (rest : List MessageT) (s : Chain) (i : ℕ)
      → Drains last n base s
      → (0 < i) × (i ≤ last)
      → s.inbox i ≡ rest
      → s.link i ≡ none
      → Emptied s i
  inbox-Emptied [] s i r place first free = record {
    later = s;
    run = r;
    no_inbox = first;
    no_link = free;
    links = λ k h. refl;
    inboxes = λ k h. refl;
    clients = refl;
  }
  inbox-Emptied (msg ∷ rest) s i r place first free =
      let held = update s.link i (some msg) in
      let next =
        then_repeat (then_relay r i msg rest place free first) i msg place
          (update-same s.link i (some msg)) in
      let here : relayed last msg rest s.inbox i i ≡ rest =
        forwarded-other last i msg (update s.inbox i rest) i (omega arith)
        ∙ update-same s.inbox i rest in
      let done = inbox-Emptied rest _ i next place here (update-same held i none) in
      record {
        later = done.later;
        run = done.run;
        no_inbox = done.no_inbox;
        no_link = done.no_link;
        links = λ k h.
            done.links k h ∙ (update-other held i k none h ∙ update-other s.link i k (some msg) h);
        inboxes = λ k h.
            done.inboxes k h
            ∙ relayed-other last msg rest s.inbox i k (omega (arith, h)) (omega (arith, h));
        clients = done.clients;
      }

  link-Emptied : (s : Chain) (i : ℕ) → Drains last n base s → (0 < i) × (i ≤ last) → Emptied s i
  link-Emptied s i r place = elim (Option-cases (s.link i)) [
    | inl free ↦ inbox-Emptied (s.inbox i) s i r place refl free
    | inr (msg, there) ↦
        let next = then_repeat r i msg place there in
        let done = inbox-Emptied (s.inbox i) _ i next place refl (update-same s.link i none) in
        record {
          later = done.later;
          run = done.run;
          no_inbox = done.no_inbox;
          no_link = done.no_link;
          links = λ k h. done.links k h ∙ update-other s.link i k none h;
          inboxes = done.inboxes;
          clients = done.clients;
        }
  ]

  -- The servers up to place `m`, one after another.
  servers_idle :
      (m : ℕ) (s : Chain)
      → Drains last n base s
      → m ≤ last
      → (s' : Chain) × (Drains last n base s')
        × ((i : ℕ) → 0 < i → i ≤ m → (s'.inbox i ≡ []) × (s'.link i ≡ none))
        × (s'.clients ≡ s.clients)
  servers_idle zero s r h = (s, r, λ i above below. absurd (omega (arith, above, below)), refl)
  servers_idle (suc m) s r h =
      let (s', r', idle, same_clients) = servers_idle m s r (omega (arith, h)) in
      let done = link-Emptied s' (suc m) r' (omega arith, h) in
      (
        done.later,
        done.run,
        λ i above below. elim (ℕ_discrete i (suc m)) [
          | yes this ↦ rw this (done.no_inbox, done.no_link)
          | no lower ↦
              let before = idle i above (omega (arith, below, lower)) in
              (
                done.inboxes i (omega (arith, below, lower)) ∙ before.0,
                done.links i lower ∙ before.1,
              )
        ],
        done.clients ∙ same_clients,
      )

  -- The threads of the clients, one after another.
  clients_idle :
      (m : ℕ) (s : Chain)
      → Drains last n base s
      → m ≤ n
      → (s' : Chain) × (Drains last n base s') × ((c : ℕ) → c < m → s'.clients c ≡ none)
  clients_idle zero s r h = (s, r, λ c below. absurd (omega (arith, below)))
  clients_idle (suc m) s r h =
      let (s', r', idle) = clients_idle m s r (omega (arith, h)) in
      elim (Option-cases (s'.clients m)) [
        | inl free ↦ (
          s',
          r',
          λ c below. elim (ℕ_discrete c m) [
            | yes this ↦ rw this free
            | no lower ↦ idle c (omega (arith, below, lower))
          ],
        )
        | inr (msg, there) ↦ (
          _,
          then_answer r' m msg (omega (arith, h)) there,
          λ c below. elim (ℕ_discrete c m) [
            | yes this ↦ rw this (update-same s'.clients m none)
            | no lower ↦
                update-other s'.clients m c none lower ∙ idle c (omega (arith, below, lower))
          ],
        )
      ]

-- From every state that a chain of servers can come to, there are steps of its threads, in which
-- they only handle, receive and pass on what is on its way and no client sends anything, to a state
-- in which nothing is on its way and no thread holds a message, as long as no connection fails and
-- no write blocks.
pub settles-IsQuiet :
    {last n : ℕ} {servers : ℕ → Server} (s : Chain) (log : List MessageT)
    → Reach last n servers s log
    → (s' : Chain) × (Drains last n s s') × (Reach last n servers s' log) × (IsQuiet last n s')
settles-IsQuiet {last} {n} s log r =
    let (s', answered_all, answered) = clients_idle last n s n s no_more (omega arith) in
    let (t, run, idle, same_clients) = servers_idle last n s last s' answered_all (omega arith) in
    (
      t,
      run,
      Drains-Reach r run,
      record {
        inboxes = λ i above below. (idle i above below).0;
        links = λ i above below. (idle i above below).1;
        threads = λ c below. ap (λ f. f c) same_clients ∙ answered c below;
      },
    )
