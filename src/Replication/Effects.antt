-- ===== src/Replication/Effects.antt =====
-- What the requests of clients do to the table of a server of the chain.
use mathlib.Core.Path.{fun_ext}
use amazon_dynamo_db.Prelude.{
  ℕ, suc, ◌+◌, ◌≤◌, ◌<◌, ◌*◌, inl, inr, Option-cases, ◌≡◌, ap, sym, subst, ◌∙◌, Option, none, some,
  arith, int_limit, length, if◌then◌else◌, ◌==◌,
}
use amazon_dynamo_db.Memory.{Memory}
use amazon_dynamo_db.Memory.Spend.{IsAmple, IsAmple-spend, spend}
use amazon_dynamo_db.Strings.{Bytes}
use amazon_dynamo_db.Assoc.Finds.{is_some}
use amazon_dynamo_db.Table.Hash.{IsKey}
use amazon_dynamo_db.Table.Buckets.{
  Buckets, IsTable, table_of, view, put, del, total, put-IsTable, del-IsTable, view-put, view-del,
  total-put, total-del,
}
use amazon_dynamo_db.Table.Keys.Laws.{all_scratch}
use amazon_dynamo_db.Table.Session.{Map, update}
use amazon_dynamo_db.Messages.{StatisticsT, EntryT, MessageT}
use amazon_dynamo_db.Messages.Opcode
use amazon_dynamo_db.Messages.CType
use amazon_dynamo_db.Skeleton.Replies.{IsRequest, invoke-put, invoke-get, invoke-del, invoke-size}
use amazon_dynamo_db.Skeleton.Listing.{invoke-getkeys, invoke-gettable, invoke-stats}
use amazon_dynamo_db.Stub.Server.{Server, running, after_invoke}
use amazon_dynamo_db.Replication.{after_message}

-- A request that the client stub makes of arguments that the table takes.
pub data IsClean (msg : MessageT) : Type 0 where
  to_put :
      (k v : Bytes)
      → IsRequest msg Opcode.put CType.entry
      → msg.entry ≡ some (record { key = k; value = v })
      → IsKey k
      → (0 < length v) × (length v < int_limit)
      → IsClean msg
  to_get : IsRequest msg Opcode.get CType.key → IsKey msg.key → IsClean msg
  to_del : IsRequest msg Opcode.del CType.key → IsKey msg.key → IsClean msg
  to_size : IsRequest msg Opcode.size CType.none → IsClean msg
  to_list_keys : IsRequest msg Opcode.getkeys CType.none → IsClean msg
  to_list_table : IsRequest msg Opcode.gettable CType.none → IsClean msg
  to_tell_stats : IsRequest msg Opcode.stats CType.none → IsClean msg

-- What a request does to a map.
abbrev pub stored : Option EntryT → Map → Map
stored none f = f
stored (some e) f = update f e.key (some e.value)

unfoldable pub effect : MessageT → Map → Map
effect msg f =
    if msg.opcode == Opcode.put
    then stored msg.entry f
    else (if msg.opcode == Opcode.del then update f msg.key none else f)

-- A running server with a valid table that stands for the map, of `n + k` entries at most, and whose
-- requests for memory are granted.
pub record Holds (n k : ℕ) (srv : Server) (f : Map) : Type 0 where
  pub stats : StatisticsT
  pub buckets : Buckets
  pub memory : Memory
  pub runs : srv ≡ running stats (some (table_of buckets)) memory
  pub valid : IsTable buckets
  pub ample : IsAmple memory
  pub views : view buckets ≡ f
  pub fits : total buckets ≤ n + k

module _ (n k : ℕ) (f : Map) (msg : MessageT) (stats : StatisticsT) {bs : Buckets} {m : Memory}
    (t : IsTable bs) (ample : IsAmple m) (views : view bs ≡ f) (fits : total bs ≤ n + k)
    (room : n + k + 1 < int_limit) where
  changed-Holds :
      (bs' : Buckets) (g : Map) (a b : ℕ)
      → after_message msg (running stats (some (table_of bs)) m)
        ≡ running stats (some (table_of bs')) (spend a b m)
      → IsTable bs'
      → view bs' ≡ g
      → effect msg f ≡ g
      → total bs' ≤ total bs + 1
      → Holds n (suc k) (after_message msg (running stats (some (table_of bs)) m)) (effect msg f)
  changed-Holds bs' g a b e valid viewed now more = record {
    stats = stats;
    buckets = bs';
    memory = spend a b m;
    runs = e;
    valid = valid;
    ample = IsAmple-spend a b ample;
    views = rw now viewed;
    fits = omega (arith, fits, more);
  }

  unchanged-Holds :
      (a b : ℕ)
      → after_message msg (running stats (some (table_of bs)) m)
        ≡ running stats (some (table_of bs)) (spend a b m)
      → effect msg f ≡ f
      → Holds n (suc k) (after_message msg (running stats (some (table_of bs)) m)) (effect msg f)
  unchanged-Holds a b e still = changed-Holds bs f a b e t views still (omega arith)

  put-Holds :
      (key v : Bytes)
      → IsRequest msg Opcode.put CType.entry
      → msg.entry ≡ some (record { key = key; value = v })
      → IsKey key
      → (0 < length v) × (length v < int_limit)
      → Holds n (suc k) (after_message msg (running stats (some (table_of bs)) m)) (effect msg f)
  unfolding after_message effect
  put-Holds key v request entry hashable sized =
      let known = is_some (view bs key) in
      changed-Holds (put bs key v) (update f key (some v)) (if known then 4 else 6)
        (if known then 6 else 3)
        (ap (λ r. (after_invoke stats r).1)
            (invoke-put t stats msg ample key v request entry hashable sized (omega (arith, fits)))
          ∙ ground arith)
        (put-IsTable t key v hashable sized.0) (fun_ext (λ q. rw (← views) (view-put t key v q)))
        (ground (arith, request.0, entry)) (omega (arith, total-put t key v))

  del-Holds :
      IsRequest msg Opcode.del CType.key
      → IsKey msg.key
      → Holds n (suc k) (after_message msg (running stats (some (table_of bs)) m)) (effect msg f)
  unfolding after_message effect
  del-Holds request hashable =
      changed-Holds (del bs msg.key) (update f msg.key none) 0
        (if is_some (view bs msg.key) then 5 else 0)
        (ap (λ r. (after_invoke stats r).1)
          (invoke-del t stats msg ample request hashable (omega (arith, fits))))
        (del-IsTable t msg.key) (fun_ext (λ q. rw (← views) (view-del t msg.key q)))
        (ground (arith, request.0)) (omega (arith, total-del t msg.key))

  get-Holds :
      IsRequest msg Opcode.get CType.key
      → IsKey msg.key
      → Holds n (suc k) (after_message msg (running stats (some (table_of bs)) m)) (effect msg f)
  unfolding after_message effect
  get-Holds request hashable =
      let known = is_some (view bs msg.key) in
      let read = invoke-get t stats msg ample request hashable in
      unchanged-Holds (if known then 3 else 0) (if known then 2 else 0)
        (elim (Option-cases (view bs msg.key)) [
          | inl gone ↦ ground (arith, read, gone)
          | inr (v, there) ↦ ground (arith, read, there)
        ])
        (ground (arith, request.0))

  after_message-Holds :
      IsClean msg
      → Holds n (suc k) (after_message msg (running stats (some (table_of bs)) m)) (effect msg f)
  unfolding after_message effect
  after_message-Holds (to_put key v r e h s) = put-Holds key v r e h s
  after_message-Holds (to_get r h) = get-Holds r h
  after_message-Holds (to_del r h) = del-Holds r h
  after_message-Holds (to_size r) =
      unchanged-Holds 0 0
        (ap (λ r. (after_invoke stats r).1) (invoke-size t stats msg ample r (omega (arith, fits)))
          ∙ ground arith)
        (ground (arith, r.0))
  after_message-Holds (to_list_keys r) =
      unchanged-Holds (all_scratch bs + total bs + 1) (all_scratch bs)
        (ap (λ r. (after_invoke stats r).1)
          (invoke-getkeys t stats msg ample r (omega (arith, fits))))
        (ground (arith, r.0))
  after_message-Holds (to_list_table r) =
      unchanged-Holds (all_scratch bs + 5 * total bs + 2) (all_scratch bs + 2 * total bs + 1)
        (ap (λ r. (after_invoke stats r).1)
          (invoke-gettable t stats msg ample r (omega (arith, fits))))
        (ground (arith, r.0))
  after_message-Holds (to_tell_stats r) =
      unchanged-Holds 1 0 (ap (λ r. (after_invoke stats r).1) (invoke-stats t stats msg ample r))
        (ground (arith, r.0))

pub handled-Holds :
    (n k : ℕ) (srv : Server) (f : Map) (msg : MessageT)
    → IsClean msg
    → n + k + 1 < int_limit
    → Holds n k srv f
    → Holds n (suc k) (after_message msg srv) (effect msg f)
handled-Holds n k srv f msg clean room h =
    subst (λ x. Holds n (suc k) (after_message msg x) (effect msg f)) (sym h.runs)
      (after_message-Holds n k f msg h.stats h.valid h.ample h.views h.fits room clean)
