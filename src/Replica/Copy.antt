-- ===== src/Replica/Copy.antt =====
-- The copy of the table of a server that runs, when it and the new one are granted every request for
-- memory.
use amazon_dynamo_db.Prelude.{
  ℕ, suc, ◌+◌, ◌*◌, ◌≤◌, ◌<◌, ◌≡◌, ap, ◌∙◌, Option, some, none, [], ◌∷◌, All, arith, int_limit,
  length, map, minus_one, if◌then◌else◌,
}
use mathlib.Core.Path.{fun_ext}
use amazon_dynamo_db.Memory.{ok, Memory}
use amazon_dynamo_db.Memory.Spend.{IsAmple, IsAmple-spend, spend, int_add-negative}
use amazon_dynamo_db.Strings.{Bytes}
use amazon_dynamo_db.Entry.Laws.{entry_of}
use amazon_dynamo_db.Assoc.{Pairs}
use amazon_dynamo_db.Assoc.Finds.{is_some}
use amazon_dynamo_db.Table.{Table}
use amazon_dynamo_db.Table.Hash.{home}
use amazon_dynamo_db.Table.Buckets.{
  Buckets, IsTable, table_of, view, total, put-IsTable, total-put, length-get_or-le, empty,
  empty-IsTable, view-empty, total-empty,
}
use amazon_dynamo_db.Table.Put.{table_put-put}
use amazon_dynamo_db.Table.Listing.{all_pairs, IsListed, all_pairs-IsListed, length-all_pairs}
use amazon_dynamo_db.Table.Keys.Laws.{all_scratch}
use amazon_dynamo_db.Messages.{StatisticsT}
use amazon_dynamo_db.Skeleton.Stats.{decrement_total_ops}
use amazon_dynamo_db.Skeleton.Stats.Laws.{counts}
use amazon_dynamo_db.Messages.Opcode
use amazon_dynamo_db.Skeleton.Listing.{table_reply}
use amazon_dynamo_db.Network.{Codec}
use amazon_dynamo_db.Stub.{Link, bare_request}
use amazon_dynamo_db.Stub.Listing.{rtable_get_table}
use amazon_dynamo_db.Stub.Server.{Server, running, server_link, framed_link}
use amazon_dynamo_db.Stub.Framed.{FitsFrame, rtable_get_table-framed_link}
use amazon_dynamo_db.Stub.Listing.Laws.{rtable_get_table-all_pairs}
use amazon_dynamo_db.Replica.{put_entries, count_copy, copy_previous}
use amazon_dynamo_db.Replica.Puts.{
  put_all, put_all-IsTable, view-put_all, has_key-view, total-put_all,
}

put_entries-put_all :
    (bs : Buckets) (xs : Pairs) {c : Buckets} {m : Memory}
    → IsTable c
    → IsAmple m
    → All (IsListed bs) xs
    → total c + length xs < int_limit
    → (a : ℕ) × (f : ℕ) × (put_entries (some (table_of c)) (map entry_of xs) m
        ≡ ok (some (table_of (put_all c xs)), spend a f m))
unfolding put_entries put_all
put_entries-put_all bs [] t ample l room = (0, 0, ground arith)
put_entries-put_all bs (x ∷ xs) {c} {m} t ample l room =
    let a : ℕ = if is_some (view c x.0) then 3 else 5 in
    let f : ℕ = if is_some (view c x.0) then 3 else 0 in
    let small = length-get_or-le c (home x.0 (length c)) in
    let stored = table_put-put t x.0 l.0.1 x.1 ample l.0.2 (omega (arith, small)) in
    let more = total-put t x.0 x.1 in
    let (a', f', rest) =
      put_entries-put_all bs xs (put-IsTable t x.0 x.1 l.0.1 l.0.2) (IsAmple-spend a f ample) l.1
        (omega (arith, more)) in
    (a + a', f + f', ground (arith, stored, rest))

-- What `copy_previous` leaves.
abbrev pub Replicates : Link Server → ℕ → Buckets → StatisticsT → Memory → Memory → Type 0
Replicates link n bs stats sm m =
    (c : Buckets) × IsTable c
    × (view c ≡ view bs)
    × (total c ≤ total bs)
    × (a : ℕ) × (f : ℕ) × (copy_previous (some link) (counts 0 0 0) (some (table_of (empty n)))
          (running stats (some (table_of bs)) sm) m
        ≡ ok (
          (
            record (counts 0 0 0) { total_ops = minus_one },
            some (table_of c),
            running stats (some (table_of bs))
                (spend (all_scratch bs + 5 * total bs + 2) (all_scratch bs + 2 * total bs + 1) sm),
          ),
          spend a f m,
        ))

-- Where every message arrives whole.
pub copy_previous-Replicates :
    (n : ℕ) {bs : Buckets} (t : IsTable bs) (stats : StatisticsT) {m sm : Memory}
    → IsAmple m
    → IsAmple sm
    → total bs + 1 < int_limit
    → All (λ e. length e.1 < int_limit) (all_pairs bs)
    → Replicates server_link (suc n) bs stats sm m
unfolding copy_previous count_copy decrement_total_ops
copy_previous-Replicates n {bs} t stats {m} {sm} ample server_ample room short =
    let xs = all_pairs bs in
    let listed = all_pairs-IsListed t in
    let fresh = empty-IsTable (suc n) (omega arith) in
    let answered = rtable_get_table-all_pairs t stats ample server_ample room short in
    let bare = total-empty (suc n) in
    let many = length-all_pairs bs in
    let a = 6 * total bs + 1 in
    let f = 2 * total bs in
    let (a', f', copied) =
      put_entries-put_all bs xs fresh (IsAmple-spend a f ample) listed (omega arith) in
    (
      put_all (empty (suc n)) xs,
      put_all-IsTable bs xs fresh listed,
      fun_ext (λ q. seen q),
      omega (arith, total-put_all bs xs fresh listed),
      a + a',
      f + f',
      ground (arith, answered, copied, int_add-negative 0 1 (spend a f m) (omega arith)),
    )
  where
    seen : (q : Bytes) → view (put_all (empty (suc n)) (all_pairs bs)) q ≡ view bs q
    seen q =
        let put_view =
          view-put_all bs (all_pairs bs) q (empty-IsTable (suc n) (omega arith))
            (all_pairs-IsListed t) in
        let nothing : view (empty (suc n)) q ≡ none = ap (λ g. g q) (view-empty (suc n)) in
        ground (arith, put_view, nothing, has_key-view t q)

-- The copy depends on the link by the table that it gives.
same_copy :
    (codec : Codec) (srv : Server) (stats : StatisticsT) (table : Option Table) (m : Memory)
    → rtable_get_table (some (framed_link codec)) srv m ≡ rtable_get_table (some server_link) srv m
    → copy_previous (some (framed_link codec)) stats table srv m
      ≡ copy_previous (some server_link) stats table srv m
unfolding copy_previous
same_copy codec srv stats table m e = ground (arith, e)

-- A new server with any positive number of lists that copies the table of a running server over
-- frames gets a valid table with no more entries, which gives for every key what the other gives;
-- the other keeps its table, and the counter of operations of the new server becomes -1, when both
-- servers are granted every request for memory, the table is valid, the length of each value and
-- one more than the entries fit an int, and request and reply each pack into at least one and less
-- than 2^16 bytes that the codec unpacks again.
pub copy_previous-framed_link :
    (codec : Codec) (n : ℕ) {bs : Buckets} (t : IsTable bs) (stats : StatisticsT) {m sm : Memory}
    → IsAmple m
    → IsAmple sm
    → total bs + 1 < int_limit
    → All (λ e. length e.1 < int_limit) (all_pairs bs)
    → FitsFrame codec (bare_request Opcode.gettable)
    → FitsFrame codec (table_reply (all_pairs bs))
    → Replicates (framed_link codec) (suc n) bs stats sm m
copy_previous-framed_link codec n {bs} t stats {m} {sm} ample server_ample room short request
      answer =
    let (c, valid, same_view, few, a, f, run) =
      copy_previous-Replicates n t stats ample server_ample room short in
    (
      c,
      valid,
      same_view,
      few,
      a,
      f,
      same_copy codec (running stats (some (table_of bs)) sm) (counts 0 0 0)
            (some (table_of (empty (suc n)))) m
            (rtable_get_table-framed_link codec t stats {m = m} ample server_ample room request
              answer)
          ∙ run,
    )
