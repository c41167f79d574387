-- ===== src/ClientHashtable/Signals.antt =====
-- `abrupt_disconnect` of source/client_hashtable.c, which answers SIGINT.
use amazon_dynamo_db.Prelude.{◌≡◌, Option, none, some, ◌∷◌, arith}
use amazon_dynamo_db.Memory.Spend.{spend}
use amazon_dynamo_db.Network.{World, done, N, pure, ◌>>=◌}
use amazon_dynamo_db.Remote.{System, Rtable, rtable_disconnect}
use amazon_dynamo_db.Remote.Connect.{rtable_disconnect-done}
use amazon_dynamo_db.Chain.Client.{Client}

-- The codes are only printed.
disconnect_ends : {A : Type 0} → System A → Option Rtable → Option Rtable → N (Unit {0})
disconnect_ends sys none tail = pure tt
disconnect_ends sys (some head) none = pure tt
disconnect_ends sys (some head) (some tail) = do
  _ ← rtable_disconnect sys (some head)
  _ ← rtable_disconnect sys (some tail)
  pure tt

-- The process exits after it. The memory of the names is not counted.
pub abrupt_disconnect : {A : Type 0} → System A → Client Rtable → N (Unit {0})
abrupt_disconnect sys c = disconnect_ends sys c.rtable_head c.rtable_tail

-- Both connections are closed, and the four blocks of the remote tables are freed.
pub abrupt_disconnect-both :
    {A : Type 0} (sys : System A) (c : Client Rtable) (head tail : Rtable) (w : World)
    → c.rtable_head ≡ some head
    → c.rtable_tail ≡ some tail
    → abrupt_disconnect sys c w
      ≡ done tt
          (record w { closed = tail.sockfd ∷ head.sockfd ∷ w.closed; memory = spend 0 4 w.memory })
unfolding abrupt_disconnect disconnect_ends
abrupt_disconnect-both sys c head tail w h t =
    let w₁ = record w { closed = head.sockfd ∷ w.closed; memory = spend 0 2 w.memory } in
    let (code, first) = rtable_disconnect-done sys head w in
    let (code', second) = rtable_disconnect-done sys tail w₁ in ground (arith, h, t, first, second)
